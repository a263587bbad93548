-- ===== src/Suite/Wait/Laws.antt =====
-- `WaitForTransaction` of tests/utils/utils.go: when it ends, and with what.
use teleporter.Base.{ℕ, zero, suc, ◌+◌, ◌<◌, ◌≡◌, refl, ◌∙◌, false, none, some, arith}
use teleporter.Base.{Outcome, ok, fail, panic, GoError, wrap, inl, inr}
use native.Mathlib.Nat.{zero-add}
use mathlib.Core.Path.{subst}
use teleporter.Base.{ap, sym, Bool-cases, String}
use teleporter.Suite.Wait.{Receipt, wait_for_transaction, is_deadline_exceeded}

-- An answer on which the loop goes on: an error that is not the bare deadline.
abbrev pub GoesOn : Outcome Receipt → Type 0
GoesOn (ok r) = ⊥
GoesOn (fail e) = is_deadline_exceeded e ≡ false
GoesOn (panic e) = ⊥

-- How the loop ends on an answer on which it does not go on.
abbrev pub ending : Outcome Receipt → Outcome Receipt
ending (ok r) = ok r
ending (fail e) = panic (wrap "Expect(err).ShouldNot(Equal(context.DeadlineExceeded))" e)
ending (panic e) = panic e

later : (n i : ℕ) → n + suc i ≡ n + 1 + i
later n i = omega arith

module _ (answer : ℕ → Outcome Receipt) where
  wait_step :
      (o : Outcome Receipt) (rounds n : ℕ)
      → answer n ≡ o
      → GoesOn o
      → wait_for_transaction answer (suc rounds) n ≡ wait_for_transaction answer rounds (n + 1)
  wait_step (ok r) rounds n e h = absurd h
  wait_step (fail x) rounds n e h = unfold wait_for_transaction in rw (e, wait_for_transaction, h)
  wait_step (panic x) rounds n e h = absurd h

  wait_stop :
      (o : Outcome Receipt) (rounds n : ℕ)
      → answer n ≡ o
      → ¬ GoesOn o
      → wait_for_transaction answer (suc rounds) n ≡ some (ending o)
  wait_stop (ok r) rounds n e h = unfold wait_for_transaction in rw (e, wait_for_transaction)
  wait_stop (fail x) rounds n e h = elim (Bool-cases (is_deadline_exceeded x)) [
    | inl late ↦ unfold wait_for_transaction in rw (e, wait_for_transaction, late)
    | inr early ↦ absurd (h early)
  ]
  wait_stop (panic x) rounds n e h = unfold wait_for_transaction in rw (e, wait_for_transaction)

  wait_ends_from :
      (k n rounds : ℕ)
      → ((i : ℕ) → i < k → GoesOn (answer (n + i)))
      → ¬ GoesOn (answer (n + k))
      → k < rounds
      → wait_for_transaction answer rounds n ≡ some (ending (answer (n + k)))
  wait_ends_from k n zero h stop fits = absurd (omega arith)
  wait_ends_from zero n (suc rounds) h stop fits =
      let e : n ≡ n + 0 = omega arith in wait_stop (answer (n + 0)) rounds n (ap answer e) stop
  wait_ends_from (suc k) n (suc rounds) h stop fits =
      let here : n + 0 ≡ n = omega arith in
      let end : n + 1 + k ≡ n + suc k = omega arith in
      let rest =
        wait_ends_from k (n + 1) rounds
          (λ i lt. subst (λ m. GoesOn (answer m)) (later n i) (h (suc i) (omega arith)))
          (λ go. stop (subst (λ m. GoesOn (answer m)) end go)) (omega arith) in
      wait_step (answer n) rounds n refl (subst (λ m. GoesOn (answer m)) here (h 0 (omega arith)))
      ∙ rest
      ∙ ap (λ m. some (ending (answer m))) end

  wait_forever_from :
      (rounds n : ℕ) → ((i : ℕ) → GoesOn (answer i)) → wait_for_transaction answer rounds n ≡ none
  wait_forever_from zero n h = unfold wait_for_transaction in refl
  wait_forever_from (suc rounds) n h =
      wait_step (answer n) rounds n refl (h n) ∙ wait_forever_from rounds (n + 1) h

  -- With more rounds than there are answers to go on after, the loop ends at the first other answer: it returns that
  -- receipt, or fails the test on the bare deadline error or the client's panic.
  pub wait_for_transaction_ends :
      (k rounds : ℕ)
      → ((i : ℕ) → i < k → GoesOn (answer i))
      → ¬ GoesOn (answer k)
      → k < rounds
      → wait_for_transaction answer rounds 0 ≡ some (ending (answer k))
  wait_for_transaction_ends k rounds h stop fits =
      wait_ends_from k 0 rounds (λ i lt. subst (λ m. GoesOn (answer m)) (sym (zero-add i)) (h i lt))
        (λ go. stop (subst (λ m. GoesOn (answer m)) (zero-add k) go)) fits
      ∙ ap (λ m. some (ending (answer m))) (zero-add k)

  -- If the client never answers with the receipt and wraps its errors, the deadline's too, the loop does not end: after
  -- any number of rounds it is still running.
  pub wait_for_transaction_forever :
      ((i : ℕ) → (e : GoError) × (text : String) × (answer i ≡ fail (wrap text e)))
      → (rounds : ℕ) → wait_for_transaction answer rounds 0 ≡ none
  unfolding is_deadline_exceeded
  wait_for_transaction_forever h rounds = wait_forever_from rounds 0 (λ i. rw (h i).2 refl)
