-- ===== src/Contract/Watch/Laws.antt =====
-- What a subscription hands to its user, by the parser of the binding.
use teleporter.Base.{
  ◌≡◌, refl, sym, ap, ◌∙◌, ◌⊎◌, inl, inr, List, [], ◌∷◌, ◌++◌, map, Option, none, some, GoError,
  String, ok, fail,
}
use teleporter.Bindings.Types.{Log}
use teleporter.Contract.Bound.{BindLib, Unpacker}
use teleporter.Contract.Iterator.{parse}
use teleporter.Contract.Iterator.Laws.{parse_all, parse_all-ok, parse_all-fail}
use teleporter.Contract.Watch.{taken, Incoming, arrived, watch_loop}

module _ {B : BindLib} {Event : Type 0} (U : Unpacker B Event) (set_raw : Event → Log → Event)
    (contract : B.BoundContract) (event_name : String) where
  abbrev Delivered : Type 0
  Delivered = List Event × Option (Option GoError)

  -- The events come first; an error ends the loop, and without one it goes on.
  unfoldable pub followed_by : List Event × Option GoError → Delivered → Delivered
  followed_by (events, none) rest = (events ++ rest.0, rest.1)
  followed_by (events, some err) rest = (events, some (some err))

  abbrev loop : List Incoming → Delivered
  loop incoming = watch_loop U set_raw contract event_name incoming

  followed-step :
      (e : Event) (parsed : List Event × Option GoError) (rest : Delivered)
      → followed_by (e ∷ parsed.0, parsed.1) rest
        ≡ (e ∷ (followed_by parsed rest).0, (followed_by parsed rest).1)
  unfolding followed_by
  followed-step e (events, none) rest = refl
  followed-step e (events, some err) rest = refl

  -- One log whose event the user takes.
  loop-taken :
      (log : Log) (incoming : List Incoming)
      → ((e : Event) × (parse U set_raw contract event_name log ≡ ok e)
          × (loop (arrived log taken ∷ incoming) ≡ (e ∷ (loop incoming).0, (loop incoming).1)))
        ⊎ ((err : GoError) × (parse U set_raw contract event_name log ≡ fail err)
            × (loop (arrived log taken ∷ incoming) ≡ ([], some (some err))))
  unfolding parse watch_loop
  loop-taken log incoming = go (U.unpack_log contract U.new_event event_name log) refl
    where
      go :
          (o : Event × Option GoError)
          → U.unpack_log contract U.new_event event_name log ≡ o
          → ((e : Event) × (parse U set_raw contract event_name log ≡ ok e)
              × (loop (arrived log taken ∷ incoming) ≡ (e ∷ (loop incoming).0, (loop incoming).1)))
            ⊎ ((err : GoError) × (parse U set_raw contract event_name log ≡ fail err)
                × (loop (arrived log taken ∷ incoming) ≡ ([], some (some err))))
      go (e, none) h = inl (set_raw e log, rw h, rw h)
      go (e, some err) h = inr (err, rw h, rw h)

  -- While the user takes what comes, the subscription hands over the events of the logs that parse, in their order, up to
  -- the first that does not: then it ends with the error of that one; where all parse, it goes on.
  pub watch_delivers :
      (logs : List Log) (incoming : List Incoming)
      → loop (map (λ log. arrived log taken) logs ++ incoming)
        ≡ followed_by (parse_all U set_raw contract event_name logs) (loop incoming)
  unfolding followed_by parse_all
  watch_delivers [] incoming = refl
  watch_delivers (log ∷ logs) incoming =
      elim (loop-taken log (map (λ l. arrived l taken) logs ++ incoming)) [
        | inl (e, parses, looped) ↦
            looped
            ∙ ap (λ d. (e ∷ d.0, d.1)) (watch_delivers logs incoming)
            ∙ sym (followed-step e (parse_all U set_raw contract event_name logs) (loop incoming))
            ∙ ap (λ p. followed_by p (loop incoming))
                (sym (parse_all-ok U set_raw contract event_name log logs e parses))
        | inr (err, parses, looped) ↦
            looped
            ∙ ap (λ p. followed_by p (loop incoming))
                (sym (parse_all-fail U set_raw contract event_name log logs err parses))
      ]
