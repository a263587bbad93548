-- ===== src/Text/Decimal.antt =====
-- Decimal text: `strconv.ParseUint` in base 10 and the print of an unsigned number.
use teleporter.Base.{ℕ, zero, suc, ◌+◌, ◌*◌, ◌/◌, ◌%◌, ◌-◌, ◌^◌, ◌<◌, ◌≡◌, ◌≢◌, refl, ◌||◌, arith}
use teleporter.Text.Defs.{Lacks}
use teleporter.Base.{List, [], ◌∷◌, ltb, if◌then◌else◌, Outcome, ok, fail, quoting}

-- The loop of `ParseUint` behind the number read so far. The whole text is for the error.
scan_digits : ℕ → List ℕ → List ℕ → ℕ → Outcome ℕ
scan_digits bits whole [] n = ok n
scan_digits bits whole (c ∷ s) n =
    let m = n * 10 + (c - b'0') in
    let rest = scan_digits bits whole s m in
    if ltb c b'0' || ltb b'9' c
    then fail (quoting "invalid syntax" whole)
    else if ltb m (2 ^ bits)
    then rest
    else fail (quoting "value out of range" whole)

-- `strconv.ParseUint(s, 10, bits)`
unfoldable pub parse_uint : List ℕ → ℕ → Outcome ℕ
unfolding scan_digits
parse_uint [] bits = fail (quoting "invalid syntax" [])
parse_uint (c ∷ s) bits = scan_digits bits (c ∷ s) (c ∷ s) 0

digits : ℕ → ℕ → List ℕ → List ℕ
digits zero n out = out
digits (suc f) n out =
    let rest = digits f (n / 10) ((b'0' + n % 10) ∷ out) in
    if ltb n 10 then (b'0' + n % 10) ∷ out else rest

-- `%d`: a number has at most as many digits as it counts, and one more for 0.
unfoldable pub format_uint : ℕ → List ℕ
unfolding digits
format_uint n = digits (suc n) n []

module _ (bits : ℕ) (whole : List ℕ) where
  scan_digits-snoc :
      (n : ℕ) (out : List ℕ)
      → n < 2 ^ bits
      → scan_digits bits whole ((b'0' + n % 10) ∷ out) (n / 10) ≡ scan_digits bits whole out n
  unfolding scan_digits
  scan_digits-snoc n out h = ground arith

  scan-digits :
      (f n : ℕ) (out : List ℕ)
      → n < f
      → n < 2 ^ bits
      → scan_digits bits whole (digits f n out) 0 ≡ scan_digits bits whole out n
  unfolding digits
  scan-digits zero n out h fits = absurd (omega arith)
  scan-digits (suc f) n out h fits =
      ground (arith, scan_digits-snoc n out fits, scan-digits f (n / 10) ((b'0' + n % 10) ∷ out))

digits-nonempty : (f n : ℕ) (tail : List ℕ) → tail ≢ [] → digits f n tail ≢ []
unfolding digits
digits-nonempty zero n tail some_digit = some_digit
digits-nonempty (suc f) n tail some_digit =
    ground (arith, digits-nonempty f (n / 10) ((b'0' + n % 10) ∷ tail))

pub format_uint-nonempty : (n : ℕ) → format_uint n ≢ []
unfolding format_uint
format_uint-nonempty n = ground (arith, digits-nonempty n (n / 10) ((b'0' + n % 10) ∷ []))

parse_uint-scan_digits :
    (s : List ℕ) (bits : ℕ) → s ≢ [] → parse_uint s bits ≡ scan_digits bits s s 0
unfolding parse_uint
parse_uint-scan_digits (digit ∷ more) bits some_digit = refl
parse_uint-scan_digits [] bits some_digit = absurd (some_digit refl)

-- A number of that many bits is read back from its decimal print.
pub parse_uint-format_uint : (bits n : ℕ) → n < 2 ^ bits → parse_uint (format_uint n) bits ≡ ok n
unfolding format_uint scan_digits
parse_uint-format_uint bits n h =
    rw (parse_uint-scan_digits _ bits (format_uint-nonempty n))
      (scan-digits bits _ (suc n) n [] (omega arith) h)

digits-Lacks : (f n : ℕ) (out : List ℕ) → Lacks b':' out → Lacks b':' (digits f n out)
unfolding digits
digits-Lacks zero n out h = h
digits-Lacks (suc f) n out h = ground (arith, digits-Lacks f (n / 10) ((b'0' + n % 10) ∷ out))

-- A decimal print holds no colon.
pub format_uint-Lacks : (n : ℕ) → Lacks b':' (format_uint n)
unfolding format_uint
format_uint-Lacks n = digits-Lacks (suc n) n [] tt
