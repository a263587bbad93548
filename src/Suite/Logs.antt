-- ===== src/Suite/Logs.antt =====
-- `GetEventFromLogs` of tests/utils/utils.go.
use teleporter.Base.{◌≡◌, refl, ◌∙◌, ◌⊎◌, ◌↔◌, inl, inr, List, [], ◌∷◌}
use teleporter.Base.{Outcome, ok, fail, panic, GoError, new}
use teleporter.Bindings.Types.{Log}

module _ {T : Type 0} (parser : Log → Outcome T) where
  -- `GetEventFromLogs`: the first log that the parser takes. Its errors are dropped.
  unfoldable pub get_event_from_logs : List Log → Outcome T
  get_event_from_logs [] = fail (new "failed to find event in receipt logs")
  get_event_from_logs (log ∷ logs) =
      let rest = get_event_from_logs logs in
      elim (parser log) [ ok event ↦ ok event | fail e ↦ rest | panic e ↦ panic e ]

  -- The event is that of a log which the parser takes, and the parser refuses every log before it.
  abbrev pub IsFirst : List Log → T → Type 0
  IsFirst [] event = ⊥
  IsFirst (log ∷ logs) event =
      (parser log ≡ ok event) ⊎ (((e : GoError) × (parser log ≡ fail e)) × IsFirst logs event)

  get_event-IsFirst :
      (logs : List Log) (event : T) → get_event_from_logs logs ≡ ok event → IsFirst logs event
  unfolding get_event_from_logs
  get_event-IsFirst [] event h = cc
  get_event-IsFirst (log ∷ logs) event h = go (parser log) refl (get_event-IsFirst logs event)
    where
      go :
          (o : Outcome T)
          → parser log ≡ o
          → (get_event_from_logs logs ≡ ok event → IsFirst logs event)
          → (parser log ≡ ok event) ⊎ (((e : GoError) × (parser log ≡ fail e)) × IsFirst logs event)
      go (ok x) e ih = inl (e ∙ (rw (e, get_event_from_logs) at h))
      go (fail x) e ih = inr ((x, e), ih (rw (e, get_event_from_logs) at h))
      go (panic x) e ih = cc (rw (e, get_event_from_logs) at h)

  IsFirst-get_event :
      (logs : List Log) (event : T) → IsFirst logs event → get_event_from_logs logs ≡ ok event
  unfolding get_event_from_logs
  IsFirst-get_event [] event h = absurd h
  IsFirst-get_event (log ∷ logs) event (inl taken) = rw (taken, get_event_from_logs)
  IsFirst-get_event (log ∷ logs) event (inr ((x, refused), first)) =
      rw (refused, get_event_from_logs) (IsFirst-get_event logs event first)

  -- `GetEventFromLogs` returns an event exactly when it is that of the first log that the parser does not refuse
  -- with an error, whatever logs follow.
  pub get_event_from_logs_iff :
      (logs : List Log) (event : T) → (get_event_from_logs logs ≡ ok event) ↔ IsFirst logs event
  get_event_from_logs_iff logs event = (get_event-IsFirst logs event, IsFirst-get_event logs event)
