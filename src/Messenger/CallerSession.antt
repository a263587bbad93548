-- ===== src/Messenger/CallerSession.antt =====
-- abi-bindings/go/Teleporter/TeleporterMessenger/TeleporterMessenger.go: the reading methods with the options of a session.
use teleporter.Base.{ℤ, Bool, Outcome}
use teleporter.Bindings.Types.{Address, Hash, TeleporterFeeInfo, TeleporterMessageReceipt}
use teleporter.Contract.Bound.{BindLib}
use teleporter.Messenger.Binding.{TeleporterMessengerCallerSession}
use teleporter.Messenger.Caller

module _ (B : BindLib) where
  unfoldable pub warp_messenger : TeleporterMessengerCallerSession B → Outcome Address
  warp_messenger session = Caller.warp_messenger B session.contract session.call_opts

  unfoldable pub blockchain_id : TeleporterMessengerCallerSession B → Outcome Hash
  blockchain_id session = Caller.blockchain_id B session.contract session.call_opts

  unfoldable pub check_relayer_reward_amount :
      TeleporterMessengerCallerSession B → Address → Address → Outcome ℤ
  check_relayer_reward_amount session relayer fee_asset =
      Caller.check_relayer_reward_amount B session.contract session.call_opts relayer fee_asset

  unfoldable pub get_fee_info :
      TeleporterMessengerCallerSession B → Hash → ℤ → Outcome (Address × ℤ)
  get_fee_info session destination_blockchain_id message_id =
      Caller.get_fee_info B session.contract session.call_opts destination_blockchain_id message_id

  unfoldable pub get_message_hash : TeleporterMessengerCallerSession B → Hash → ℤ → Outcome Hash
  get_message_hash session destination_blockchain_id message_id =
      Caller.get_message_hash B session.contract session.call_opts destination_blockchain_id
        message_id

  unfoldable pub get_next_message_id : TeleporterMessengerCallerSession B → Hash → Outcome ℤ
  get_next_message_id session destination_blockchain_id =
      Caller.get_next_message_id B session.contract session.call_opts destination_blockchain_id

  unfoldable pub get_receipt_at_index :
      TeleporterMessengerCallerSession B → Hash → ℤ → Outcome TeleporterMessageReceipt
  get_receipt_at_index session origin_blockchain_id position =
      Caller.get_receipt_at_index B session.contract session.call_opts origin_blockchain_id position

  unfoldable pub get_receipt_queue_size : TeleporterMessengerCallerSession B → Hash → Outcome ℤ
  get_receipt_queue_size session origin_blockchain_id =
      Caller.get_receipt_queue_size B session.contract session.call_opts origin_blockchain_id

  unfoldable pub get_relayer_reward_address :
      TeleporterMessengerCallerSession B → Hash → ℤ → Outcome Address
  get_relayer_reward_address session origin_blockchain_id message_id =
      Caller.get_relayer_reward_address B session.contract session.call_opts origin_blockchain_id
        message_id

  unfoldable pub latest_message_ids : TeleporterMessengerCallerSession B → Hash → Outcome ℤ
  latest_message_ids session destination_blockchain_id =
      Caller.latest_message_ids B session.contract session.call_opts destination_blockchain_id

  unfoldable pub message_received : TeleporterMessengerCallerSession B → Hash → ℤ → Outcome Bool
  message_received session origin_blockchain_id message_id =
      Caller.message_received B session.contract session.call_opts origin_blockchain_id message_id

  unfoldable pub receipt_queues : TeleporterMessengerCallerSession B → Hash → Outcome (ℤ × ℤ)
  receipt_queues session source_blockchain_id =
      Caller.receipt_queues B session.contract session.call_opts source_blockchain_id

  unfoldable pub received_failed_message_hashes :
      TeleporterMessengerCallerSession B → Hash → ℤ → Outcome Hash
  received_failed_message_hashes session source_blockchain_id message_id =
      Caller.received_failed_message_hashes B session.contract session.call_opts
        source_blockchain_id message_id

  unfoldable pub sent_message_info :
      TeleporterMessengerCallerSession B → Hash → ℤ → Outcome (Hash × TeleporterFeeInfo)
  sent_message_info session destination_blockchain_id message_id =
      Caller.sent_message_info B session.contract session.call_opts destination_blockchain_id
        message_id
