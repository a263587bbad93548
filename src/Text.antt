-- ===== src/Text.antt =====
-- The string functions of Go's standard library that the program calls, over lists of code points
-- (a string) or of bytes (a byte slice).
mod Defs
pub mod Hex
pub mod Decimal
pub use Defs.{Text, Lacks}
use Prim.Native.Char.{code}
use teleporter.Base.{ℕ, ◌+◌, ◌-◌, ◌<◌, ◌≡◌, refl, ◌≢◌, Bool, ◌&&◌, List, [], ◌∷◌, ◌++◌, map, arith}
use teleporter.Base.{String, ltb, leb, ◌==◌, if◌then◌else◌, text_eq, eq_of_text_eq, text_eq_refl}
use teleporter.Base.{length, drop, take}

-- A literal as a Go string.
abbrev pub codes : String → Text
codes String.[] = []
codes (String.◌∷◌ c s) = code c ∷ codes s

-- `strings.ToLower` on one code point. The cases of the code points from 128 on are `beyond`, a
-- table of the Unicode standard.
unfoldable pub to_lower_rune : (ℕ → ℕ) → ℕ → ℕ
to_lower_rune beyond c =
    if ltb c 128 then (if leb b'A' c && leb c b'Z' then c + 32 else c) else beyond c

unfoldable pub to_lower : (ℕ → ℕ) → Text → Text
unfolding to_lower_rune
to_lower beyond [] = []
to_lower beyond (c ∷ s) = to_lower_rune beyond c ∷ to_lower beyond s

-- `strings.HasPrefix`
unfoldable pub has_prefix : Text → Text → Bool
has_prefix s prefix = text_eq (take (length prefix) s) prefix

-- `strings.TrimPrefix`
unfoldable pub trim_prefix : Text → Text → Text
unfolding has_prefix
trim_prefix s prefix = if has_prefix s prefix then drop (length prefix) s else s

-- `strings.Split` by a single byte. It returns at least one part.
unfoldable pub split_on : ℕ → Text → List Text
split_on sep [] = [] ∷ []
split_on sep (c ∷ s) = elim (split_on sep s) [
  | [] ↦ (c ∷ []) ∷ []
  | p ∷ ps ↦ if c == sep then [] ∷ p ∷ ps else (c ∷ p) ∷ ps
]

-- A text without the separator is one part.
pub split_on-Lacks : (sep : ℕ) (s : Text) → Lacks sep s → split_on sep s ≡ s ∷ []
unfolding split_on
split_on-Lacks sep [] h = refl
split_on-Lacks sep (c ∷ s) (h, hs) = ground (arith, split_on-Lacks sep s hs)

-- A single separator makes two parts.
pub split_on-append :
    (sep : ℕ) (s t : Text) → Lacks sep s → Lacks sep t → split_on sep (s ++ (sep ∷ t)) ≡ s ∷ t ∷ []
unfolding split_on
split_on-append sep [] t h ht = ground (arith, split_on-Lacks sep t ht)
split_on-append sep (c ∷ s) t (h, hs) ht = ground (arith, split_on-append sep s t hs ht)

take-prefix : (p s : Text) → take (length p) (p ++ s) ≡ p
take-prefix [] s = refl
take-prefix (c ∷ p) s = ground (arith, take-prefix p s)

pub drop-prefix : (p s : Text) → drop (length p) (p ++ s) ≡ s
drop-prefix [] s = refl
drop-prefix (c ∷ p) s = drop-prefix p s

pub has_prefix-append : (p s : Text) → has_prefix (p ++ s) p ≡ Bool.true
unfolding has_prefix
has_prefix-append p s = rw (take-prefix p s) (text_eq_refl p)

pub trim_prefix-append : (p s : Text) → trim_prefix (p ++ s) p ≡ s
unfolding trim_prefix
trim_prefix-append p s = rw (take-prefix p s, text_eq_refl p) (drop-prefix p s)

pub trim_prefix_of_lacks : (p s : Text) → has_prefix s p ≡ Bool.false → trim_prefix s p ≡ s
unfolding trim_prefix
trim_prefix_of_lacks p s h = rw h
