-- ===== src/Bindings/Filter.antt =====
-- `FilterTeleporterEvents` of abi-bindings/go/Teleporter/TeleporterMessenger/event.go.
pub mod Laws
use teleporter.Base.{ℕ, ◌≡◌, List, [], ◌∷◌, Outcome, ok, fail, panic, quoting, ◌>>=◌, arith}
use teleporter.Text.{Text}
use teleporter.Bindings.Types.{Bytes, Hash}
use teleporter.Bindings.Abi.{AbiLib}
use teleporter.Bindings.Packing.{unpack_event}
use teleporter.Bindings.Event.{
  Event, unknown, send_cross_chain_message, receive_cross_chain_message, add_fee_amount,
  message_execution_failed, message_executed, relayer_rewards_redeemed, undeclared, string,
  to_event,
}
use teleporter.Bindings.Event.Laws.{IsDeclared, to_event-string_iff}

-- The struct types that `out` may point to.
pub data EventStruct : Type 0 where
  teleporter_messenger_send_cross_chain_message : EventStruct
  teleporter_messenger_receive_cross_chain_message : EventStruct
  teleporter_messenger_add_fee_amount : EventStruct
  teleporter_messenger_message_execution_failed : EventStruct
  teleporter_messenger_message_executed : EventStruct
  teleporter_messenger_relayer_rewards_redeemed : EventStruct

-- The switch that allocates `out`.
unfoldable pub new_out : Event → Outcome EventStruct
new_out send_cross_chain_message = ok teleporter_messenger_send_cross_chain_message
new_out receive_cross_chain_message = ok teleporter_messenger_receive_cross_chain_message
new_out add_fee_amount = ok teleporter_messenger_add_fee_amount
new_out message_execution_failed = ok teleporter_messenger_message_execution_failed
new_out message_executed = ok teleporter_messenger_message_executed
new_out relayer_rewards_redeemed = ok teleporter_messenger_relayer_rewards_redeemed
new_out e = fail (quoting "unknown event" (string e))

module _ (L : AbiLib) (beyond : ℕ → ℕ) where
  -- The event's struct type with its fields.
  unfoldable pub filter_teleporter_events :
      List Hash → Bytes → Text → Outcome (EventStruct × List (Text × L.Value))
  filter_teleporter_events topics log_data event = do
    e ← to_event beyond event
    out ← new_out e
    fields ← unpack_event L [] (string e) topics log_data
    ok (out, fields)
