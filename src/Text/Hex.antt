-- ===== src/Text/Hex.antt =====
-- Hexadecimal text: `hex.EncodeToString`, `fmt.Sprintf("%x")` and `hex.DecodeString`.
use Prim.Native.Nat.{ℕ}
use teleporter.Base.{◌+◌, ◌*◌, ◌/◌, ◌%◌, ◌-◌, ◌<◌, ◌≡◌, refl, ◌&&◌, List, [], ◌∷◌, map, arith}
use teleporter.Base.{text_eq, take, false}
use teleporter.Base.{Option, none, some, leb, ltb, if◌then◌else◌}
use teleporter.Base.{Outcome, ok, fail, new, quoting, ◌>>=◌, >>=-eq-ok}

hex_digit : ℕ → ℕ
hex_digit d = if ltb d 10 then b'0' + d else b'a' + (d - 10)

unfoldable pub encode_to_string : List ℕ → List ℕ
unfolding hex_digit
encode_to_string [] = []
encode_to_string (b ∷ bs) = hex_digit (b / 16) ∷ hex_digit (b % 16) ∷ encode_to_string bs

unfoldable pub from_hex_char : ℕ → Option ℕ
from_hex_char c =
    if leb b'0' c && leb c b'9'
    then some (c - b'0')
    else if leb b'a' c && leb c b'f'
    then some (c - b'a' + 10)
    else if leb b'A' c && leb c b'F'
    then some (c - b'A' + 10)
    else none

-- `InvalidByteError` and `ErrLength`. Of a text of odd length a bad last digit is told first.
digit : ℕ → Outcome ℕ
digit c = elim (from_hex_char c) [
  | none ↦ fail (quoting "encoding/hex: invalid byte" (c ∷ []))
  | some d ↦ ok d
]

unfoldable pub decode_string : List ℕ → Outcome (List ℕ)
unfolding digit from_hex_char
decode_string [] = ok []
decode_string (c ∷ []) = do _ ← digit c; fail (new "encoding/hex: odd length hex string")
decode_string (c ∷ d ∷ s) = do
  hi ← digit c
  lo ← digit d
  bs ← decode_string s
  ok ((hi * 16 + lo) ∷ bs)

-- Each element is a byte.
abbrev pub AreBytes : List ℕ → Type 0
AreBytes [] = Unit
AreBytes (b ∷ bs) = (b < 256) × AreBytes bs

digit-hex_digit : (d : ℕ) → d < 16 → digit (hex_digit d) ≡ ok d
unfolding digit from_hex_char hex_digit
digit-hex_digit d h = ground arith

-- Encoded bytes are decoded to themselves.
pub decode_string-encode_to_string :
    (bs : List ℕ) → AreBytes bs → decode_string (encode_to_string bs) ≡ ok bs
unfolding decode_string encode_to_string
decode_string-encode_to_string [] h = refl
decode_string-encode_to_string (b ∷ bs) (h, hs) =
    rw (digit-hex_digit (b / 16) (omega arith), digit-hex_digit (b % 16) (omega arith))
      (rw (decode_string-encode_to_string bs hs) (ground arith))

-- `strings.ToLower` on a hexadecimal digit.
abbrev pub lower_hex : ℕ → ℕ
lower_hex c = if leb b'A' c && leb c b'F' then c + 32 else c

digit-eq-ok : (c d : ℕ) → digit c ≡ ok d → (hex_digit d ≡ lower_hex c) × (d < 16)
unfolding digit from_hex_char hex_digit
digit-eq-ok c d h = ground arith

decode_pair :
    (c d hi lo : ℕ) (s bs' bs : List ℕ)
    → (hex_digit hi ≡ lower_hex c) × (hi < 16)
    → (hex_digit lo ≡ lower_hex d) × (lo < 16)
    → AreBytes bs' × (encode_to_string bs' ≡ map lower_hex s)
    → ok ((hi * 16 + lo) ∷ bs') ≡ ok bs
    → AreBytes bs × (encode_to_string bs ≡ map lower_hex (c ∷ d ∷ s))
unfolding encode_to_string
decode_pair c d hi lo s bs' bs p q r e =
    let b = hi * 16 + lo in
    let high : b / 16 ≡ hi = omega arith in
    let low : b % 16 ≡ lo = omega arith in ground (arith, p, q, r)

-- What is decoded are bytes, and their encoding is the text with its letters in lower case.
pub decode_string_sound :
    (s bs : List ℕ)
    → decode_string s ≡ ok bs
    → AreBytes bs × (encode_to_string bs ≡ map lower_hex s)
unfolding decode_string encode_to_string
decode_string_sound [] bs h = ground arith
decode_string_sound (c ∷ []) bs h = ground arith
decode_string_sound (c ∷ d ∷ s) bs h =
    let (hi, first, h') = >>=-eq-ok (digit c) _ h in
    let (lo, second, h'') = >>=-eq-ok (digit d) _ h' in
    let (bs', rest, e) = >>=-eq-ok (decode_string s) _ h'' in
    decode_pair c d hi lo s bs' bs (digit-eq-ok c hi first) (digit-eq-ok d lo second)
      (decode_string_sound s bs' rest) e

-- No hexadecimal digit is an `x`, so encoded text does not begin with "0x".
pub encode_to_string-no_x :
    (b : ℕ) (bs : List ℕ)
    → b < 256
    → (text_eq (take 2 (encode_to_string (b ∷ bs))) (b'0' ∷ b'x' ∷ []) ≡ false)
      × (text_eq (take 2 (encode_to_string (b ∷ bs))) (b'0' ∷ b'X' ∷ []) ≡ false)
unfolding encode_to_string text_eq
encode_to_string-no_x b bs h = ground arith
