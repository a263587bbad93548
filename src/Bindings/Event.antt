-- ===== src/Bindings/Event.antt =====
-- abi-bindings/go/Teleporter/TeleporterMessenger/event.go: the event enum and its names.
pub mod Laws
use teleporter.Base.{ℕ, Outcome, ok, fail, quoting, text_eq, if◌then◌else◌}
use teleporter.Text.{Text, codes, to_lower}

-- `Event` is a uint8 with seven named values; `undeclared` stands for the other numbers.
pub data Event : Type 0 where
  unknown send_cross_chain_message receive_cross_chain_message add_fee_amount : Event
  message_execution_failed message_executed relayer_rewards_redeemed : Event
  undeclared : ℕ → Event

unfoldable pub send_cross_chain_message_str : Text
send_cross_chain_message_str = codes "SendCrossChainMessage"

unfoldable pub receive_cross_chain_message_str : Text
receive_cross_chain_message_str = codes "ReceiveCrossChainMessage"

unfoldable pub add_fee_amount_str : Text
add_fee_amount_str = codes "AddFeeAmount"

unfoldable pub message_execution_failed_str : Text
message_execution_failed_str = codes "MessageExecutionFailed"

unfoldable pub message_executed_str : Text
message_executed_str = codes "MessageExecuted"

unfoldable pub relayer_rewards_redeemed_str : Text
relayer_rewards_redeemed_str = codes "RelayerRewardsRedeemed"

unfoldable pub unknown_str : Text
unknown_str = codes "Unknown"

-- `Event.String`
unfoldable pub string : Event → Text
string send_cross_chain_message = send_cross_chain_message_str
string receive_cross_chain_message = receive_cross_chain_message_str
string add_fee_amount = add_fee_amount_str
string message_execution_failed = message_execution_failed_str
string message_executed = message_executed_str
string relayer_rewards_redeemed = relayer_rewards_redeemed_str
string _ = unknown_str

module _ (beyond : ℕ → ℕ) where
  -- `ToEvent`
  unfoldable pub to_event : Text → Outcome Event
  to_event e =
      let lower = to_lower beyond e in
      if text_eq lower (to_lower beyond send_cross_chain_message_str)
      then ok send_cross_chain_message
      else if text_eq lower (to_lower beyond receive_cross_chain_message_str)
      then ok receive_cross_chain_message
      else if text_eq lower (to_lower beyond add_fee_amount_str)
      then ok add_fee_amount
      else if text_eq lower (to_lower beyond message_execution_failed_str)
      then ok message_execution_failed
      else if text_eq lower (to_lower beyond message_executed_str)
      then ok message_executed
      else if text_eq lower (to_lower beyond relayer_rewards_redeemed_str)
      then ok relayer_rewards_redeemed
      else fail (quoting "unknown event" e)
