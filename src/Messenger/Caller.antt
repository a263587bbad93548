-- ===== src/Messenger/Caller.antt =====
-- abi-bindings/go/Teleporter/TeleporterMessenger/TeleporterMessenger.go: the methods that read the contract.
use teleporter.Base.{ℤ, Bool, [], ◌∷◌, Outcome, ok, ◌>>=◌}
use teleporter.Bindings.Types.{Address, Hash, TeleporterFeeInfo, TeleporterMessageReceipt}
use teleporter.Bindings.Abi.{identifier, big_int, address}
use teleporter.Contract.Bound.{BindLib, out_at}
use teleporter.Messenger.Binding.{TeleporterMessengerCaller}

module _ (B : BindLib) where
  unfoldable pub warp_messenger : TeleporterMessengerCaller B → B.CallOpts → Outcome Address
  warp_messenger caller opts = do
    out ← B.call caller.contract opts "WARP_MESSENGER" ([])
    value0 ← out_at out 0
    out0 ← B.to_address value0
    ok out0

  unfoldable pub blockchain_id : TeleporterMessengerCaller B → B.CallOpts → Outcome Hash
  blockchain_id caller opts = do
    out ← B.call caller.contract opts "blockchainID" ([])
    value0 ← out_at out 0
    out0 ← B.to_hash value0
    ok out0

  unfoldable pub check_relayer_reward_amount :
      TeleporterMessengerCaller B → B.CallOpts → Address → Address → Outcome ℤ
  check_relayer_reward_amount caller opts relayer fee_asset = do
    out ←
        B.call caller.contract opts "checkRelayerRewardAmount"
          (address relayer ∷ address fee_asset ∷ [])
    value0 ← out_at out 0
    out0 ← B.to_big_int value0
    ok out0

  unfoldable pub get_fee_info :
      TeleporterMessengerCaller B → B.CallOpts → Hash → ℤ → Outcome (Address × ℤ)
  get_fee_info caller opts destination_blockchain_id message_id = do
    out ←
        B.call caller.contract opts "getFeeInfo"
          (identifier destination_blockchain_id ∷ big_int message_id ∷ [])
    value0 ← out_at out 0
    out0 ← B.to_address value0
    value1 ← out_at out 1
    out1 ← B.to_big_int value1
    ok (out0, out1)

  unfoldable pub get_message_hash :
      TeleporterMessengerCaller B → B.CallOpts → Hash → ℤ → Outcome Hash
  get_message_hash caller opts destination_blockchain_id message_id = do
    out ←
        B.call caller.contract opts "getMessageHash"
          (identifier destination_blockchain_id ∷ big_int message_id ∷ [])
    value0 ← out_at out 0
    out0 ← B.to_hash value0
    ok out0

  unfoldable pub get_next_message_id : TeleporterMessengerCaller B → B.CallOpts → Hash → Outcome ℤ
  get_next_message_id caller opts destination_blockchain_id = do
    out ← B.call caller.contract opts "getNextMessageID" (identifier destination_blockchain_id ∷ [])
    value0 ← out_at out 0
    out0 ← B.to_big_int value0
    ok out0

  unfoldable pub get_receipt_at_index :
      TeleporterMessengerCaller B → B.CallOpts → Hash → ℤ → Outcome TeleporterMessageReceipt
  get_receipt_at_index caller opts origin_blockchain_id position = do
    out ←
        B.call caller.contract opts "getReceiptAtIndex"
          (identifier origin_blockchain_id ∷ big_int position ∷ [])
    value0 ← out_at out 0
    out0 ← B.to_receipt value0
    ok out0

  unfoldable pub get_receipt_queue_size :
      TeleporterMessengerCaller B → B.CallOpts → Hash → Outcome ℤ
  get_receipt_queue_size caller opts origin_blockchain_id = do
    out ← B.call caller.contract opts "getReceiptQueueSize" (identifier origin_blockchain_id ∷ [])
    value0 ← out_at out 0
    out0 ← B.to_big_int value0
    ok out0

  unfoldable pub get_relayer_reward_address :
      TeleporterMessengerCaller B → B.CallOpts → Hash → ℤ → Outcome Address
  get_relayer_reward_address caller opts origin_blockchain_id message_id = do
    out ←
        B.call caller.contract opts "getRelayerRewardAddress"
          (identifier origin_blockchain_id ∷ big_int message_id ∷ [])
    value0 ← out_at out 0
    out0 ← B.to_address value0
    ok out0

  unfoldable pub latest_message_ids : TeleporterMessengerCaller B → B.CallOpts → Hash → Outcome ℤ
  latest_message_ids caller opts destination_blockchain_id = do
    out ← B.call caller.contract opts "latestMessageIDs" (identifier destination_blockchain_id ∷ [])
    value0 ← out_at out 0
    out0 ← B.to_big_int value0
    ok out0

  unfoldable pub message_received :
      TeleporterMessengerCaller B → B.CallOpts → Hash → ℤ → Outcome Bool
  message_received caller opts origin_blockchain_id message_id = do
    out ←
        B.call caller.contract opts "messageReceived"
          (identifier origin_blockchain_id ∷ big_int message_id ∷ [])
    value0 ← out_at out 0
    out0 ← B.to_bool value0
    ok out0

  unfoldable pub receipt_queues : TeleporterMessengerCaller B → B.CallOpts → Hash → Outcome (ℤ × ℤ)
  receipt_queues caller opts source_blockchain_id = do
    out ← B.call caller.contract opts "receiptQueues" (identifier source_blockchain_id ∷ [])
    value0 ← out_at out 0
    out0 ← B.to_big_int value0
    value1 ← out_at out 1
    out1 ← B.to_big_int value1
    ok (out0, out1)

  unfoldable pub received_failed_message_hashes :
      TeleporterMessengerCaller B → B.CallOpts → Hash → ℤ → Outcome Hash
  received_failed_message_hashes caller opts source_blockchain_id message_id = do
    out ←
        B.call caller.contract opts "receivedFailedMessageHashes"
          (identifier source_blockchain_id ∷ big_int message_id ∷ [])
    value0 ← out_at out 0
    out0 ← B.to_hash value0
    ok out0

  unfoldable pub sent_message_info :
      TeleporterMessengerCaller B → B.CallOpts → Hash → ℤ → Outcome (Hash × TeleporterFeeInfo)
  sent_message_info caller opts destination_blockchain_id message_id = do
    out ←
        B.call caller.contract opts "sentMessageInfo"
          (identifier destination_blockchain_id ∷ big_int message_id ∷ [])
    value0 ← out_at out 0
    out0 ← B.to_hash value0
    value1 ← out_at out 1
    out1 ← B.to_fee_info value1
    ok (out0, out1)
