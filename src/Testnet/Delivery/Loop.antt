-- ===== src/Testnet/Delivery/Loop.antt =====
-- tests/testnet/network.go: when the loop of `getMessageDeliveryTransactionReceipt` ends.
use teleporter.Base.{ℕ, zero, suc, ◌+◌, ◌<◌, ◌≡◌, refl, inl, inr, ◌∙◌, Bool, true, false, arith}
use teleporter.Base.{Option, none, some, Option-cases, Outcome, ok, fail, panic, GoError}
use mathlib.Core.Path.{subst, sym}
use teleporter.Testnet.Delivery.{wait_until_delivered}

-- An answer that sends the loop into the next round.
abbrev pub IsPending : Outcome Bool → Type 0
IsPending (ok delivered) = delivered ≡ false
IsPending (fail e) = Unit
IsPending (panic e) = ⊥

module _ (expired : ℕ → Option GoError) (answer : ℕ → Outcome Bool) where
  -- Round n ends the loop with `out`.
  abbrev pub EndsHere : ℕ → Outcome (Unit {0}) → Type 0
  EndsHere n (ok done) = (expired n ≡ none) × (answer n ≡ ok true)
  EndsHere n (fail e) = expired n ≡ some e
  EndsHere n (panic e) = (expired n ≡ none) × (answer n ≡ panic e)

  -- From round n on, k rounds send the loop on, and the next one ends it with `out`.
  abbrev pub EndsAfter : ℕ → ℕ → Outcome (Unit {0}) → Type 0
  EndsAfter zero n out = EndsHere n out
  EndsAfter (suc k) n out = (expired n ≡ none) × IsPending (answer n) × EndsAfter k (n + 1) out

  ends_here :
      (out : Outcome (Unit {0})) (rounds n : ℕ)
      → EndsHere n out
      → wait_until_delivered expired answer (suc rounds) n ≡ some out
  unfolding wait_until_delivered
  ends_here (ok tt) rounds n (alive, h) = rw (alive, h, wait_until_delivered)
  ends_here (fail e) rounds n h = rw (h, wait_until_delivered)
  ends_here (panic e) rounds n (alive, h) = rw (alive, h, wait_until_delivered)

  goes_on :
      (o : Outcome Bool) (rounds n : ℕ)
      → expired n ≡ none
      → answer n ≡ o
      → IsPending o
      → wait_until_delivered expired answer (suc rounds) n
        ≡ wait_until_delivered expired answer rounds (n + 1)
  goes_on (ok delivered) rounds n alive e h =
      unfold wait_until_delivered in rw (alive, e, h, wait_until_delivered)
  goes_on (fail x) rounds n alive e h =
      unfold wait_until_delivered in rw (alive, e, wait_until_delivered)
  goes_on (panic x) rounds n alive e h = absurd h

  pub wait_until_delivered_from :
      (k rounds n : ℕ) (out : Outcome (Unit {0}))
      → EndsAfter k n out
      → k < rounds
      → wait_until_delivered expired answer rounds n ≡ some out
  wait_until_delivered_from k zero n out h fits = absurd (omega arith)
  wait_until_delivered_from zero (suc rounds) n out h fits = ends_here out rounds n h
  wait_until_delivered_from (suc k) (suc rounds) n out (alive, pending, h) fits =
      goes_on (answer n) rounds n alive refl pending
      ∙ wait_until_delivered_from k rounds (n + 1) out h (omega arith)

  -- Some round from n on, at most the k-th after it, ends the loop.
  abbrev pub EndsBy : ℕ → ℕ → Type 0
  EndsBy k n = (j : ℕ) × (out : Outcome (Unit {0})) × (j < suc k) × EndsAfter j n out

  pending-EndsBy :
      (k n : ℕ) → expired n ≡ none → IsPending (answer n) → EndsBy k (n + 1) → EndsBy (suc k) n
  pending-EndsBy k n alive pending (j, out, early, rest) =
      (suc j, out, omega arith, (alive, pending, rest))

  answered-EndsBy :
      (o : Outcome Bool) (k n : ℕ)
      → answer n ≡ o
      → expired n ≡ none
      → EndsBy k (n + 1)
      → EndsBy (suc k) n
  answered-EndsBy (ok true) k n e alive later = (0, ok tt, omega arith, (alive, e))
  answered-EndsBy (ok false) k n e alive later =
      pending-EndsBy k n alive (subst IsPending (sym e) refl) later
  answered-EndsBy (fail x) k n e alive later =
      pending-EndsBy k n alive (subst IsPending (sym e) tt) later
  answered-EndsBy (panic x) k n e alive later = (0, panic x, omega arith, (alive, e))

  expired-EndsBy : (k n : ℕ) (e : GoError) → expired (n + k) ≡ some e → EndsBy k n
  expired-EndsBy zero n e h =
      let here : n + 0 ≡ n = omega arith in
      (0, fail e, omega arith, subst (λ m. expired m ≡ some e) here h)
  expired-EndsBy (suc k) n e h =
      let next : n + suc k ≡ n + 1 + k = omega arith in
      elim (Option-cases (expired n)) [
        | inr (e', over) ↦ (0, fail e', omega arith, over)
        | inl alive ↦
            answered-EndsBy (answer n) k n refl alive
              (expired-EndsBy k (n + 1) e (subst (λ m. expired m ≡ some e) next h))
      ]

  -- If the context is over in round k, the loop ends within k + 1 rounds, and with what the first round that ends it
  -- says: delivered, the error of the context, or a panic of the client. All rounds before that
  -- one had a context that is not over and an answer that is an error or says no.
  pub wait_until_delivered_ends :
      (k rounds : ℕ) (e : GoError)
      → expired k ≡ some e
      → k < rounds
      → (j : ℕ) × (out : Outcome (Unit {0})) × (j < suc k)
        × EndsAfter j 0 out
        × (wait_until_delivered expired answer rounds 0 ≡ some out)
  wait_until_delivered_ends k rounds e h fits =
      let here : k ≡ 0 + k = omega arith in
      let (j, out, early, ends) = expired-EndsBy k 0 e (subst (λ m. expired m ≡ some e) here h) in
      (j, out, early, ends, wait_until_delivered_from j rounds 0 out ends (omega arith))
