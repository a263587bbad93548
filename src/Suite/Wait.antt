-- ===== src/Suite/Wait.antt =====
-- `WaitForTransaction` of tests/utils/utils.go: polling for a receipt.
pub mod Laws
use text.Mathlib.Text.{◌==◌ as str_eq}
use teleporter.Base.{
  ℕ, zero, suc, ◌+◌, ◌<◌, Bool, true, false, List, Option, none, some, if◌then◌else◌,
}
use teleporter.Base.{Outcome, ok, fail, panic, GoError, new, quoting, wrap}
use teleporter.Bindings.Types.{Hash, Log}

-- `types.Receipt`, as far as the program reads it; a status is 1 if the transaction succeeded, 0 if not.
pub record Receipt : Type 0 where
  pub status : ℕ
  pub logs : List Log
  pub block_hash : Hash
  pub block_number : ℕ

abbrev pub receipt_status_failed : ℕ
receipt_status_failed = 0

abbrev pub receipt_status_successful : ℕ
receipt_status_successful = 1

-- `context.DeadlineExceeded`, and the test by gomega's `Equal`, which looks at the error itself and not at
-- what it wraps. The model knows that value by its text, so no other error has this text by itself.
abbrev pub deadline_exceeded : GoError
deadline_exceeded = new "context deadline exceeded"

unfoldable pub is_deadline_exceeded : GoError → Bool
is_deadline_exceeded (new text) = str_eq text "context deadline exceeded"
is_deadline_exceeded (quoting text s) = false
is_deadline_exceeded (wrap text e) = false

-- `WaitForTransaction`, on a bound of its rounds: `none` says that the loop is still running after them.
-- The n-th call of `TransactionReceipt` is answered `answer n`; the answers after the deadline of the
-- context are the client's, like all others.
unfoldable pub wait_for_transaction : (ℕ → Outcome Receipt) → ℕ → ℕ → Option (Outcome Receipt)
wait_for_transaction answer zero n = none
wait_for_transaction answer (suc rounds) n =
    let rest = wait_for_transaction answer rounds (n + 1) in
    elim (answer n) [
      | ok receipt ↦ some (ok receipt)
      | fail e ↦
          if is_deadline_exceeded e
          then some (panic (wrap "Expect(err).ShouldNot(Equal(context.DeadlineExceeded))" e))
          else rest
      | panic e ↦ some (panic e)
    ]
