-- ===== src/Contract/Iterator/Termination.antt =====
-- The iterators over filtered logs: a caller that goes on with `Next` comes to the end.
use mathlib.Core.Bool.{true≢false}
use teleporter.Base.{
  ℕ, zero, suc, ◌+◌, ◌*◌, ◌<◌, ◌≡◌, refl, ap, ◌⊎◌, inl, inr, Bool, true, false, List, [], ◌∷◌, ◌++◌,
  length, length-append, none, Option-cases, Bool-cases, if◌then◌else◌, arith,
}
use teleporter.Bindings.Types.{Log}
use teleporter.Contract.Bound.{BindLib, Unpacker}
use teleporter.Contract.Iterator.Feed.{
  Feed, returned, Step, sends, ends, takes_log, takes_end, polls, fails, Run, here, works, yields,
}
use teleporter.Contract.Iterator.Laws.{Effect, got, broke, exhausted, failed, Step-Effect}

module _ {B : BindLib} {Event : Type 0} (U : Unpacker B Event) (set_raw : Event → Log → Event)
    (capacity : ℕ) (buffers : 0 < capacity) where
  -- A bound of the steps that are left.
  work : Feed B Event → ℕ
  work s = 2 * length s.unsent + length s.buffered + (if s.ended then 0 else 1)

  -- How a run goes on: to the end, or to a run with less to do.
  Onward : Feed B Event → Feed B Event → Type 0
  Onward s t =
      ((u : Feed B Event) × Step U set_raw capacity t (returned false) u)
      ⊎ ((more : List Event) × (u : Feed B Event) × Run U set_raw capacity s more u
          × (work u < work t))

  called-Onward :
      (s : Feed B Event) (events : List Event) (t u : Feed B Event) (b : Bool)
      → Run U set_raw capacity s events t
      → Step U set_raw capacity t (returned b) u
      → Onward s t
  unfolding work Onward
  called-Onward s events t u false run step = inl (u, step)
  called-Onward s events t u true run step = go (Step-Effect U set_raw capacity t true u step)
    where
      go : Effect U set_raw t true u → Onward s t
      go (got e log logs alive buf parses b seen unfailed bufs kept) = inr (
        events ++ (e ∷ []),
        u,
        yields e _ run step seen refl,
        omega (
          arith,
          ap length buf,
          ap length bufs,
          ap length kept.same_unsent,
          ap {B = ℕ} (λ (x : Bool). if x then 0 else 1) kept.same_ended,
        ),
      )
      go (broke err log logs alive buf parses b dead kept) = absurd (true≢false b)
      go (exhausted alive over buf b unfailed bufs kept) = absurd (true≢false b)
      go (failed err dead b same) = absurd (true≢false b)

  run-Onward :
      (s : Feed B Event) (events : List Event) (t : Feed B Event)
      → Run U set_raw capacity s events t
      → Onward s t
  unfolding work Onward
  run-Onward s events t run = elim (Option-cases t.it.failure) [
    | inr (err, dead) ↦ called-Onward s events t _ _ run (fails err dead refl refl)
    | inl alive ↦ elim (Bool-cases t.it.done) [
      | inl finished ↦ called-Onward s events t _ _ run (polls alive finished refl refl)
      | inr working ↦ waiting alive working t.buffered refl t.unsent refl (Bool-cases t.ended)
    ]
  ]
    where
      waiting :
          t.it.failure ≡ none
          → t.it.done ≡ false
          → (buffered : List Log) → t.buffered ≡ buffered
          → (unsent : List Log) → t.unsent ≡ unsent
          → t.ended ≡ true ⊎ t.ended ≡ false
          → Onward s t
      waiting alive working (log ∷ logs) buf unsent left e =
          called-Onward s events t _ _ run (takes_log log logs alive working buf refl refl)
      waiting alive working [] buf unsent left (inl over) =
          called-Onward s events t _ _ run (takes_end alive working over refl refl)
      waiting alive working [] buf [] left (inr runs) = inr (
        events,
        _,
        works run (ends left runs refl refl),
        omega (arith, ap {B = ℕ} (λ (x : Bool). if x then 0 else 1) runs),
      )
      waiting alive working [] buf (log ∷ logs) left (inr runs) = inr (
        events,
        _,
        works run (sends log logs left omega (arith, ap length buf) refl refl),
        omega (arith, ap length left, length-append t.buffered (log ∷ [])),
      )

  run_on :
      (fuel : ℕ) (s : Feed B Event) (events : List Event) (t : Feed B Event)
      → work t < fuel
      → Run U set_raw capacity s events t
      → (more : List Event) × (v u : Feed B Event) × Run U set_raw capacity s more v
        × Step U set_raw capacity v (returned false) u
  unfolding Onward
  run_on zero s events t enough run = absurd (omega arith)
  run_on (suc fuel) s events t enough run = elim (run-Onward s events t run) [
    | inl (u, step) ↦ (events, t, u, run, step)
    | inr (more, u, onward, less) ↦ run_on fuel s more u (omega arith) onward
  ]

  -- If the channel holds a log at all, from every state of an iterator and its channel, with any number of logs to come, neither the caller nor the
  -- goroutine is stuck: they come to a `Next` that returns false.
  pub iterator_ends :
      (s : Feed B Event)
      → (events : List Event) × (t u : Feed B Event) × Run U set_raw capacity s events t
        × Step U set_raw capacity t (returned false) u
  iterator_ends s = run_on (suc (work s)) s [] s (omega arith) here
