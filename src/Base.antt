-- ===== src/Base.antt =====
-- The names that the other modules share: the libraries', passed on, and those of the children.
mod Tests
mod Lists
mod Results
mod Int
pub use Tests.{ltb, leb, ◌==◌, if◌then◌else◌, eq_of_text_eq, text_eq_refl, Bool-cases, Option-cases}
pub use Tests.{ltb→lt, lt→ltb, tests}
unfoldable pub use Tests.{text_eq}
pub use Int.{
  ℤ, pos, negsuc, pos_part, neg_part, sub_ℕ, is_uint64, to_uint64, to_int64, ◌+ℤ◌, eqb, eq_of_eqb,
}
pub use Lists.*
pub use Results.{GoError, new, quoting, wrap, Outcome, ok, fail, panic, ◌>>=◌, ◌>>◌}
pub use Results.{>>=-ok, >>=-assoc}
pub use Results.{
  wrapping, or_panic, guard, expect, >>=-eq-ok, >>=-or_panic, >>-expect, or_panic-eq-ok,
  ok-injective,
}
pub use Prim.Native.Nat.{ℕ, zero, suc, ◌+◌, ◌-◌, ◌*◌, ◌/◌, ◌%◌, ◌^◌, ◌≤◌, ◌<◌}
pub use Prim.Native.String.{String}
pub use mathlib.Core.Path.{◌≡◌, refl, sym, ap, ◌∙◌}
pub use mathlib.Core.Logic.{◌≢◌, ◌↔◌, ◌⊎◌, inl, inr}
pub use mathlib.Core.Bool.{Bool, true, false, ◌&&◌, ◌||◌, not}
pub use mathlib.Core.Option.{Option, none, some}
pub use mathlib.Core.List.{List, [], ◌∷◌, ◌++◌, map}
pub use native.Mathlib.Omega.{arith}
