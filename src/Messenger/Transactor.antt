-- ===== src/Messenger/Transactor.antt =====
-- abi-bindings/go/Teleporter/TeleporterMessenger/TeleporterMessenger.go: the methods that send a transaction.
use teleporter.Base.{ℕ, ℤ, List, [], ◌∷◌, Outcome}
use teleporter.Bindings.Types.{
  Address, Hash, TeleporterFeeInfo, TeleporterMessage, TeleporterMessageInput,
}
use teleporter.Bindings.Abi.{
  identifier, big_int, address, uint32, whole_message, message_input, fee_info, big_ints, addresses,
}
use teleporter.Contract.Bound.{BindLib}
use teleporter.Messenger.Binding.{TeleporterMessengerTransactor}

module _ (B : BindLib) where
  unfoldable pub add_fee_amount :
      TeleporterMessengerTransactor B → B.TransactOpts → Hash → ℤ → Address → ℤ → Outcome B.SignedTx
  add_fee_amount transactor opts destination_blockchain_id message_id fee_token_address
        additional_fee_amount =
      B.transact transactor.contract opts "addFeeAmount" (
        identifier destination_blockchain_id
        ∷ big_int message_id
        ∷ address fee_token_address
        ∷ big_int additional_fee_amount
        ∷ [])

  unfoldable pub receive_cross_chain_message :
      TeleporterMessengerTransactor B → B.TransactOpts → ℕ → Address → Outcome B.SignedTx
  receive_cross_chain_message transactor opts message_index relayer_reward_address =
      B.transact transactor.contract opts "receiveCrossChainMessage"
        (uint32 message_index ∷ address relayer_reward_address ∷ [])

  unfoldable pub redeem_relayer_rewards :
      TeleporterMessengerTransactor B → B.TransactOpts → Address → Outcome B.SignedTx
  redeem_relayer_rewards transactor opts fee_asset =
      B.transact transactor.contract opts "redeemRelayerRewards" (address fee_asset ∷ [])

  unfoldable pub retry_message_execution :
      TeleporterMessengerTransactor B
      → B.TransactOpts
      → Hash
      → TeleporterMessage
      → Outcome B.SignedTx
  retry_message_execution transactor opts origin_blockchain_id message =
      B.transact transactor.contract opts "retryMessageExecution"
        (identifier origin_blockchain_id ∷ whole_message message ∷ [])

  unfoldable pub retry_send_cross_chain_message :
      TeleporterMessengerTransactor B
      → B.TransactOpts
      → Hash
      → TeleporterMessage
      → Outcome B.SignedTx
  retry_send_cross_chain_message transactor opts destination_blockchain_id message =
      B.transact transactor.contract opts "retrySendCrossChainMessage"
        (identifier destination_blockchain_id ∷ whole_message message ∷ [])

  unfoldable pub send_cross_chain_message :
      TeleporterMessengerTransactor B → B.TransactOpts → TeleporterMessageInput → Outcome B.SignedTx
  send_cross_chain_message transactor opts input =
      B.transact transactor.contract opts "sendCrossChainMessage" (message_input input ∷ [])

  unfoldable pub send_specified_receipts :
      TeleporterMessengerTransactor B
      → B.TransactOpts
      → Hash
      → List ℤ
      → TeleporterFeeInfo
      → List Address
      → Outcome B.SignedTx
  send_specified_receipts transactor opts origin_blockchain_id message_ids fee
        allowed_relayer_addresses =
      B.transact transactor.contract opts "sendSpecifiedReceipts" (
        identifier origin_blockchain_id
        ∷ big_ints message_ids
        ∷ fee_info fee
        ∷ addresses allowed_relayer_addresses
        ∷ [])
