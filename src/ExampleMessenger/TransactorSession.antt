-- ===== src/ExampleMessenger/TransactorSession.antt =====
-- abi-bindings/go/CrossChainApplications/ExampleMessenger/ExampleCrossChainMessenger/ExampleCrossChainMessenger.go:
-- the sending methods with the options of a session.
use teleporter.Base.{ℤ, Outcome}
use teleporter.Bindings.Types.{Address, Bytes, Hash}
use teleporter.Text.{Text}
use teleporter.Contract.Bound.{BindLib}
use teleporter.ExampleMessenger.Binding.{ExampleCrossChainMessengerTransactorSession}
use teleporter.ExampleMessenger.Transactor

module _ (B : BindLib) where
  unfoldable pub pause_teleporter_address :
      ExampleCrossChainMessengerTransactorSession B → Address → Outcome B.SignedTx
  pause_teleporter_address session teleporter_address =
      Transactor.pause_teleporter_address B session.contract session.transact_opts
        teleporter_address

  unfoldable pub receive_teleporter_message :
      ExampleCrossChainMessengerTransactorSession B → Hash → Address → Bytes → Outcome B.SignedTx
  receive_teleporter_message session origin_blockchain_id origin_sender_address message =
      Transactor.receive_teleporter_message B session.contract session.transact_opts
        origin_blockchain_id origin_sender_address message

  unfoldable pub renounce_ownership :
      ExampleCrossChainMessengerTransactorSession B → Outcome B.SignedTx
  renounce_ownership session =
      Transactor.renounce_ownership B session.contract session.transact_opts

  unfoldable pub send_message :
      ExampleCrossChainMessengerTransactorSession B
      → Hash
      → Address
      → Address
      → ℤ
      → ℤ
      → Text
      → Outcome B.SignedTx
  send_message session destination_blockchain_id destination_address fee_token_address fee_amount
        required_gas_limit message =
      Transactor.send_message B session.contract session.transact_opts destination_blockchain_id
        destination_address fee_token_address fee_amount required_gas_limit message

  unfoldable pub transfer_ownership :
      ExampleCrossChainMessengerTransactorSession B → Address → Outcome B.SignedTx
  transfer_ownership session new_owner =
      Transactor.transfer_ownership B session.contract session.transact_opts new_owner

  unfoldable pub unpause_teleporter_address :
      ExampleCrossChainMessengerTransactorSession B → Address → Outcome B.SignedTx
  unpause_teleporter_address session teleporter_address =
      Transactor.unpause_teleporter_address B session.contract session.transact_opts
        teleporter_address

  unfoldable pub update_min_teleporter_version :
      ExampleCrossChainMessengerTransactorSession B → ℤ → Outcome B.SignedTx
  update_min_teleporter_version session version =
      Transactor.update_min_teleporter_version B session.contract session.transact_opts version
