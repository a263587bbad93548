-- ===== src/Messenger/Session.antt =====
-- abi-bindings/go/Teleporter/TeleporterMessenger/TeleporterMessenger.go: the methods with the options of a session.
use teleporter.Base.{ℕ, ℤ, Bool, List, Outcome}
use teleporter.Bindings.Types.{
  Address, Hash, TeleporterFeeInfo, TeleporterMessage, TeleporterMessageInput,
  TeleporterMessageReceipt,
}
use teleporter.Contract.Bound.{BindLib}
use teleporter.Messenger.Binding.{TeleporterMessengerSession}
use teleporter.Messenger.Caller
use teleporter.Messenger.Transactor

module _ (B : BindLib) where
  unfoldable pub warp_messenger : TeleporterMessengerSession B → Outcome Address
  warp_messenger session = Caller.warp_messenger B session.contract.caller session.call_opts

  unfoldable pub blockchain_id : TeleporterMessengerSession B → Outcome Hash
  blockchain_id session = Caller.blockchain_id B session.contract.caller session.call_opts

  unfoldable pub check_relayer_reward_amount :
      TeleporterMessengerSession B → Address → Address → Outcome ℤ
  check_relayer_reward_amount session relayer fee_asset =
      Caller.check_relayer_reward_amount B session.contract.caller session.call_opts relayer
        fee_asset

  unfoldable pub get_fee_info : TeleporterMessengerSession B → Hash → ℤ → Outcome (Address × ℤ)
  get_fee_info session destination_blockchain_id message_id =
      Caller.get_fee_info B session.contract.caller session.call_opts destination_blockchain_id
        message_id

  unfoldable pub get_message_hash : TeleporterMessengerSession B → Hash → ℤ → Outcome Hash
  get_message_hash session destination_blockchain_id message_id =
      Caller.get_message_hash B session.contract.caller session.call_opts destination_blockchain_id
        message_id

  unfoldable pub get_next_message_id : TeleporterMessengerSession B → Hash → Outcome ℤ
  get_next_message_id session destination_blockchain_id =
      Caller.get_next_message_id B session.contract.caller session.call_opts
        destination_blockchain_id

  unfoldable pub get_receipt_at_index :
      TeleporterMessengerSession B → Hash → ℤ → Outcome TeleporterMessageReceipt
  get_receipt_at_index session origin_blockchain_id position =
      Caller.get_receipt_at_index B session.contract.caller session.call_opts origin_blockchain_id
        position

  unfoldable pub get_receipt_queue_size : TeleporterMessengerSession B → Hash → Outcome ℤ
  get_receipt_queue_size session origin_blockchain_id =
      Caller.get_receipt_queue_size B session.contract.caller session.call_opts origin_blockchain_id

  unfoldable pub get_relayer_reward_address :
      TeleporterMessengerSession B → Hash → ℤ → Outcome Address
  get_relayer_reward_address session origin_blockchain_id message_id =
      Caller.get_relayer_reward_address B session.contract.caller session.call_opts
        origin_blockchain_id message_id

  unfoldable pub latest_message_ids : TeleporterMessengerSession B → Hash → Outcome ℤ
  latest_message_ids session destination_blockchain_id =
      Caller.latest_message_ids B session.contract.caller session.call_opts
        destination_blockchain_id

  unfoldable pub message_received : TeleporterMessengerSession B → Hash → ℤ → Outcome Bool
  message_received session origin_blockchain_id message_id =
      Caller.message_received B session.contract.caller session.call_opts origin_blockchain_id
        message_id

  unfoldable pub receipt_queues : TeleporterMessengerSession B → Hash → Outcome (ℤ × ℤ)
  receipt_queues session source_blockchain_id =
      Caller.receipt_queues B session.contract.caller session.call_opts source_blockchain_id

  unfoldable pub received_failed_message_hashes :
      TeleporterMessengerSession B → Hash → ℤ → Outcome Hash
  received_failed_message_hashes session source_blockchain_id message_id =
      Caller.received_failed_message_hashes B session.contract.caller session.call_opts
        source_blockchain_id message_id

  unfoldable pub sent_message_info :
      TeleporterMessengerSession B → Hash → ℤ → Outcome (Hash × TeleporterFeeInfo)
  sent_message_info session destination_blockchain_id message_id =
      Caller.sent_message_info B session.contract.caller session.call_opts destination_blockchain_id
        message_id

  unfoldable pub add_fee_amount :
      TeleporterMessengerSession B → Hash → ℤ → Address → ℤ → Outcome B.SignedTx
  add_fee_amount session destination_blockchain_id message_id fee_token_address
        additional_fee_amount =
      Transactor.add_fee_amount B session.contract.transactor session.transact_opts
        destination_blockchain_id message_id fee_token_address additional_fee_amount

  unfoldable pub receive_cross_chain_message :
      TeleporterMessengerSession B → ℕ → Address → Outcome B.SignedTx
  receive_cross_chain_message session message_index relayer_reward_address =
      Transactor.receive_cross_chain_message B session.contract.transactor session.transact_opts
        message_index relayer_reward_address

  unfoldable pub redeem_relayer_rewards :
      TeleporterMessengerSession B → Address → Outcome B.SignedTx
  redeem_relayer_rewards session fee_asset =
      Transactor.redeem_relayer_rewards B session.contract.transactor session.transact_opts
        fee_asset

  unfoldable pub retry_message_execution :
      TeleporterMessengerSession B → Hash → TeleporterMessage → Outcome B.SignedTx
  retry_message_execution session origin_blockchain_id message =
      Transactor.retry_message_execution B session.contract.transactor session.transact_opts
        origin_blockchain_id message

  unfoldable pub retry_send_cross_chain_message :
      TeleporterMessengerSession B → Hash → TeleporterMessage → Outcome B.SignedTx
  retry_send_cross_chain_message session destination_blockchain_id message =
      Transactor.retry_send_cross_chain_message B session.contract.transactor session.transact_opts
        destination_blockchain_id message

  unfoldable pub send_cross_chain_message :
      TeleporterMessengerSession B → TeleporterMessageInput → Outcome B.SignedTx
  send_cross_chain_message session input =
      Transactor.send_cross_chain_message B session.contract.transactor session.transact_opts input

  unfoldable pub send_specified_receipts :
      TeleporterMessengerSession B
      → Hash
      → List ℤ
      → TeleporterFeeInfo
      → List Address
      → Outcome B.SignedTx
  send_specified_receipts session origin_blockchain_id message_ids fee allowed_relayer_addresses =
      Transactor.send_specified_receipts B session.contract.transactor session.transact_opts
        origin_blockchain_id message_ids fee allowed_relayer_addresses
