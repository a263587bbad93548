-- ===== src/ExampleMessenger/Transactor.antt =====
-- abi-bindings/go/CrossChainApplications/ExampleMessenger/ExampleCrossChainMessenger/ExampleCrossChainMessenger.go:
-- the methods that send a transaction.
use teleporter.Base.{ℤ, [], ◌∷◌, Outcome}
use teleporter.Bindings.Types.{Address, Bytes, Hash}
use teleporter.Text.{Text}
use teleporter.Bindings.Abi.{identifier, big_int, address, text_argument, bytes_argument}
use teleporter.Contract.Bound.{BindLib}
use teleporter.ExampleMessenger.Binding.{ExampleCrossChainMessengerTransactor}

module _ (B : BindLib) where
  unfoldable pub pause_teleporter_address :
      ExampleCrossChainMessengerTransactor B → B.TransactOpts → Address → Outcome B.SignedTx
  pause_teleporter_address transactor opts teleporter_address =
      B.transact transactor.contract opts "pauseTeleporterAddress" (address teleporter_address ∷ [])

  unfoldable pub receive_teleporter_message :
      ExampleCrossChainMessengerTransactor B
      → B.TransactOpts
      → Hash
      → Address
      → Bytes
      → Outcome B.SignedTx
  receive_teleporter_message transactor opts origin_blockchain_id origin_sender_address message =
      B.transact transactor.contract opts "receiveTeleporterMessage" (
        identifier origin_blockchain_id
        ∷ address origin_sender_address
        ∷ bytes_argument message
        ∷ [])

  unfoldable pub renounce_ownership :
      ExampleCrossChainMessengerTransactor B → B.TransactOpts → Outcome B.SignedTx
  renounce_ownership transactor opts = B.transact transactor.contract opts "renounceOwnership" ([])

  unfoldable pub send_message :
      ExampleCrossChainMessengerTransactor B
      → B.TransactOpts
      → Hash
      → Address
      → Address
      → ℤ
      → ℤ
      → Text
      → Outcome B.SignedTx
  send_message transactor opts destination_blockchain_id destination_address fee_token_address
        fee_amount required_gas_limit message =
      B.transact transactor.contract opts "sendMessage" (
        identifier destination_blockchain_id
        ∷ address destination_address
        ∷ address fee_token_address
        ∷ big_int fee_amount
        ∷ big_int required_gas_limit
        ∷ text_argument message
        ∷ [])

  unfoldable pub transfer_ownership :
      ExampleCrossChainMessengerTransactor B → B.TransactOpts → Address → Outcome B.SignedTx
  transfer_ownership transactor opts new_owner =
      B.transact transactor.contract opts "transferOwnership" (address new_owner ∷ [])

  unfoldable pub unpause_teleporter_address :
      ExampleCrossChainMessengerTransactor B → B.TransactOpts → Address → Outcome B.SignedTx
  unpause_teleporter_address transactor opts teleporter_address =
      B.transact transactor.contract opts "unpauseTeleporterAddress"
        (address teleporter_address ∷ [])

  unfoldable pub update_min_teleporter_version :
      ExampleCrossChainMessengerTransactor B → B.TransactOpts → ℤ → Outcome B.SignedTx
  update_min_teleporter_version transactor opts version =
      B.transact transactor.contract opts "updateMinTeleporterVersion" (big_int version ∷ [])
