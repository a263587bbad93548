-- ===== src/Bindings/Filter/Laws.antt =====
-- `FilterTeleporterEvents` of event.go against its description: which names it takes, and as what.
use teleporter.Base.{ℕ, ◌≡◌, ◌≢◌, refl, ◌⊎◌, inl, inr, List, [], arith}
use teleporter.Base.{Outcome, ok, fail, panic, GoError, quoting, ◌>>=◌}
use teleporter.Text.{Text, to_lower}
use teleporter.Bindings.Types.{Bytes, Hash}
use teleporter.Bindings.Abi.{AbiLib}
use teleporter.Bindings.Packing.{unpack_event}
use teleporter.Bindings.Event.{
  Event, unknown, send_cross_chain_message, receive_cross_chain_message, add_fee_amount,
  message_execution_failed, message_executed, relayer_rewards_redeemed, undeclared, string,
  to_event,
}
use teleporter.Bindings.Event.Laws.{IsDeclared, to_event-string_iff}
use teleporter.Bindings.Filter.{
  EventStruct, new_out, filter_teleporter_events, teleporter_messenger_send_cross_chain_message,
  teleporter_messenger_receive_cross_chain_message, teleporter_messenger_add_fee_amount,
  teleporter_messenger_message_execution_failed, teleporter_messenger_message_executed,
  teleporter_messenger_relayer_rewards_redeemed,
}

-- The struct that abigen made for an event. Only the six events of the contract have one.
unfoldable pub struct_of : (e : Event) → IsDeclared e → EventStruct
struct_of unknown d = absurd d
struct_of (undeclared n) d = absurd d
struct_of send_cross_chain_message d = teleporter_messenger_send_cross_chain_message
struct_of receive_cross_chain_message d = teleporter_messenger_receive_cross_chain_message
struct_of add_fee_amount d = teleporter_messenger_add_fee_amount
struct_of message_execution_failed d = teleporter_messenger_message_execution_failed
struct_of message_executed d = teleporter_messenger_message_executed
struct_of relayer_rewards_redeemed d = teleporter_messenger_relayer_rewards_redeemed

new_out-struct_of : (e : Event) (d : IsDeclared e) → new_out e ≡ ok (struct_of e d)
unfolding new_out struct_of
new_out-struct_of unknown d = absurd d
new_out-struct_of (undeclared n) d = absurd d
new_out-struct_of send_cross_chain_message d = refl
new_out-struct_of receive_cross_chain_message d = refl
new_out-struct_of add_fee_amount d = refl
new_out-struct_of message_execution_failed d = refl
new_out-struct_of message_executed d = refl
new_out-struct_of relayer_rewards_redeemed d = refl

module _ (beyond : ℕ → ℕ) where
  to_event-eq-fail :
      (s : Text) (x : GoError) → to_event beyond s ≡ fail x → x ≡ quoting "unknown event" s
  unfolding to_event
  to_event-eq-fail s x h = ground arith

  to_event-ne-panic : (s : Text) (x : GoError) → to_event beyond s ≢ panic x
  unfolding to_event
  to_event-ne-panic s x h = ground arith

module _ (L : AbiLib) (beyond : ℕ → ℕ) where
  -- The event's struct, filled from the log.
  abbrev pub decoded :
      (e : Event) → IsDeclared e → List Hash → Bytes → Outcome (EventStruct × List (Text × L.Value))
  decoded e d topics log_data =
      unpack_event L [] (string e) topics log_data >>= λ fields. ok (struct_of e d, fields)

  filter-of_to_event :
      (topics : List Hash) (log_data : Bytes) (s : Text) (e : Event) (d : IsDeclared e)
      → to_event beyond s ≡ ok e
      → filter_teleporter_events L beyond topics log_data s ≡ decoded e d topics log_data
  unfolding filter_teleporter_events
  filter-of_to_event topics log_data s e d h = rw (h, new_out-struct_of e d)

  -- `FilterTeleporterEvents` takes a name if it is, up to `strings.ToLower`, the name of one of the six
  -- events: the log is then unpacked under the event's own spelling, into the struct of that event, and an
  -- error or panic of the unpacking is the result's. For any other name the result is the
  -- error "unknown event" with the name, so the error of the second switch never occurs.
  pub filter_teleporter_events_cases :
      (topics : List Hash) (log_data : Bytes) (s : Text)
      → ((e : Event) × (d : IsDeclared e) × (to_lower beyond s ≡ to_lower beyond (string e))
          × (filter_teleporter_events L beyond topics log_data s ≡ decoded e d topics log_data))
        ⊎ (((e : Event) → IsDeclared e → to_lower beyond s ≢ to_lower beyond (string e))
            × (filter_teleporter_events L beyond topics log_data s
                ≡ fail (quoting "unknown event" s)))
  unfolding filter_teleporter_events
  filter_teleporter_events_cases topics log_data s = go (to_event beyond s) refl
    where
      go :
          (o : Outcome Event)
          → to_event beyond s ≡ o
          → ((e : Event) × (d : IsDeclared e) × (to_lower beyond s ≡ to_lower beyond (string e))
              × (filter_teleporter_events L beyond topics log_data s ≡ decoded e d topics log_data))
            ⊎ (((e : Event) → IsDeclared e → to_lower beyond s ≢ to_lower beyond (string e))
                × (filter_teleporter_events L beyond topics log_data s
                    ≡ fail (quoting "unknown event" s)))
      go (ok e) h =
          let (d, same) = (to_event-string_iff beyond s e).0 h in
          inl (e, d, same, filter-of_to_event topics log_data s e d h)
      go (fail x) h = inr (
        (λ e d same. cc (h, (to_event-string_iff beyond s e).1 (d, same))),
        rw (h, to_event-eq-fail beyond s x h),
      )
      go (panic x) h = absurd (to_event-ne-panic beyond s x h)
