-- ===== src/Examples/BindingRuns.antt =====
-- The binding's helpers at concrete data.
use mathlib.Core.List.{Perm}
use teleporter.Base.{ℕ, ◌≡◌, ◌≢◌, refl, text_eq, ◌↔◌, ◌⊎◌, List, [], ◌∷◌, ok, fail, quoting, length}
use teleporter.Text.{Text, codes, to_lower}
use teleporter.Bindings.Abi.{Input}
use teleporter.Bindings.Event.{
  Event, add_fee_amount, string, to_event, send_cross_chain_message_str,
  receive_cross_chain_message_str, add_fee_amount_str,
}
use teleporter.Bindings.Event.Laws.{IsDeclared, to_event-string_iff}
use teleporter.Bindings.Packing.{unpack_event}
use teleporter.Bindings.Packing.Recover.{
  assign, data_inputs, topic_inputs, IsPackedEvent, unpack_event_recovers,
}
use teleporter.Bindings.Filter.{filter_teleporter_events}
use teleporter.Bindings.Filter.Laws.{decoded, filter_teleporter_events_cases}
use teleporter.Examples.Libraries.{toy_abi, inputs}

abbrev same : ℕ → ℕ
same c = c

to_event-string_iff_example : (to_event same (codes "addFEEamount") ≡ ok add_fee_amount) ↔ (
    IsDeclared add_fee_amount
    × (to_lower same (codes "addFEEamount") ≡ to_lower same (string add_fee_amount)))
to_event-string_iff_example = to_event-string_iff same (codes "addFEEamount") add_fee_amount

any_case : to_event same (codes "addFEEamount") ≡ ok add_fee_amount
unfolding to_event to_lower text_eq send_cross_chain_message_str receive_cross_chain_message_str
    add_fee_amount_str
any_case = refl

filter_teleporter_events_cases_example :
    ((e : Event) × (d : IsDeclared e) × (to_lower same (codes "addfeeamount")
        ≡ to_lower same (string e))
      × (filter_teleporter_events toy_abi same (1 ∷ 2 ∷ 4 ∷ []) (3 ∷ []) (codes "addfeeamount")
          ≡ decoded toy_abi same e d (1 ∷ 2 ∷ 4 ∷ []) (3 ∷ [])))
    ⊎ (((e : Event)
          → IsDeclared e
          → to_lower same (codes "addfeeamount") ≢ to_lower same (string e))
        × (filter_teleporter_events toy_abi same (1 ∷ 2 ∷ 4 ∷ []) (3 ∷ []) (codes "addfeeamount")
            ≡ fail (quoting "unknown event" (codes "addfeeamount"))))
filter_teleporter_events_cases_example =
    filter_teleporter_events_cases toy_abi same (1 ∷ 2 ∷ 4 ∷ []) (3 ∷ []) (codes "addfeeamount")

-- Each input's value is the length of its name.
abbrev value : Input → ℕ
value arg = length arg.name

packed_event : IsPackedEvent toy_abi tt (codes "AddFeeAmount") value (2 ∷ 4 ∷ []) (3 ∷ [])
unfolding data_inputs topic_inputs
packed_event = record {
  data-nil = λ e. cc e;
  data-ne-nil = λ h e. cc e;
  unpacks = λ h. refl;
  parses = λ out. refl;
}

unpack_event_recovers_example :
    (fields : List (Text × ℕ)) × (unpack_event toy_abi []
        (codes "AddFeeAmount")
        (1 ∷ 2 ∷ 4 ∷ [])
        (3 ∷ [])
      ≡ ok fields)
    × Perm fields (assign toy_abi value inputs)
unpack_event_recovers_example =
    unpack_event_recovers toy_abi tt (codes "AddFeeAmount") value (2 ∷ 4 ∷ []) (3 ∷ []) packed_event
      1 refl
