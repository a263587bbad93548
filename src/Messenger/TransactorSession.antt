-- ===== src/Messenger/TransactorSession.antt =====
-- abi-bindings/go/Teleporter/TeleporterMessenger/TeleporterMessenger.go: the sending methods with the options of a session.
use teleporter.Base.{ℕ, ℤ, List, Outcome}
use teleporter.Bindings.Types.{
  Address, Hash, TeleporterFeeInfo, TeleporterMessage, TeleporterMessageInput,
}
use teleporter.Contract.Bound.{BindLib}
use teleporter.Messenger.Binding.{TeleporterMessengerTransactorSession}
use teleporter.Messenger.Transactor

module _ (B : BindLib) where
  unfoldable pub add_fee_amount :
      TeleporterMessengerTransactorSession B → Hash → ℤ → Address → ℤ → Outcome B.SignedTx
  add_fee_amount session destination_blockchain_id message_id fee_token_address
        additional_fee_amount =
      Transactor.add_fee_amount B session.contract session.transact_opts destination_blockchain_id
        message_id fee_token_address additional_fee_amount

  unfoldable pub receive_cross_chain_message :
      TeleporterMessengerTransactorSession B → ℕ → Address → Outcome B.SignedTx
  receive_cross_chain_message session message_index relayer_reward_address =
      Transactor.receive_cross_chain_message B session.contract session.transact_opts message_index
        relayer_reward_address

  unfoldable pub redeem_relayer_rewards :
      TeleporterMessengerTransactorSession B → Address → Outcome B.SignedTx
  redeem_relayer_rewards session fee_asset =
      Transactor.redeem_relayer_rewards B session.contract session.transact_opts fee_asset

  unfoldable pub retry_message_execution :
      TeleporterMessengerTransactorSession B → Hash → TeleporterMessage → Outcome B.SignedTx
  retry_message_execution session origin_blockchain_id message =
      Transactor.retry_message_execution B session.contract session.transact_opts
        origin_blockchain_id message

  unfoldable pub retry_send_cross_chain_message :
      TeleporterMessengerTransactorSession B → Hash → TeleporterMessage → Outcome B.SignedTx
  retry_send_cross_chain_message session destination_blockchain_id message =
      Transactor.retry_send_cross_chain_message B session.contract session.transact_opts
        destination_blockchain_id message

  unfoldable pub send_cross_chain_message :
      TeleporterMessengerTransactorSession B → TeleporterMessageInput → Outcome B.SignedTx
  send_cross_chain_message session input =
      Transactor.send_cross_chain_message B session.contract session.transact_opts input

  unfoldable pub send_specified_receipts :
      TeleporterMessengerTransactorSession B
      → Hash
      → List ℤ
      → TeleporterFeeInfo
      → List Address
      → Outcome B.SignedTx
  send_specified_receipts session origin_blockchain_id message_ids fee allowed_relayer_addresses =
      Transactor.send_specified_receipts B session.contract session.transact_opts
        origin_blockchain_id message_ids fee allowed_relayer_addresses
