-- ===== src/Utils/Deployment/ByteCode.antt =====
-- `ExtractByteCode` of utils/deployment-utils/deployment_utils.go.
use teleporter.Base.{
  ◌≤◌, ◌≡◌, refl, ap, inl, inr, Bool-cases, eq_of_text_eq, [], ◌∷◌, ◌++◌, map, arith,
}
use teleporter.Base.{length, ok, wrapping, text_eq}
use teleporter.Base.{>>=-eq-ok}
use teleporter.Text.{Text, codes}
use teleporter.Text.Hex.{
  encode_to_string, decode_string, AreBytes, decode_string-encode_to_string, decode_string_sound,
  encode_to_string-no_x, lower_hex,
}
use teleporter.Bindings.Types.{Bytes}
use teleporter.Utils.Deployment.{DeployLib, extract_byte_code, strip_hex_prefix, has_hex_prefix}

-- The prefixes under which a byte code may be written.
pub data HexPrefix : Type 0 where
  none lower upper : HexPrefix

unfoldable pub prefix : HexPrefix → Text
prefix none = []
prefix lower = codes "0x"
prefix upper = codes "0X"

-- Hexadecimal text has no `x`, so it is no prefix.
strip-encode :
    (p : HexPrefix) (bs : Bytes)
    → AreBytes bs
    → strip_hex_prefix (prefix p ++ encode_to_string bs) ≡ encode_to_string bs
unfolding strip_hex_prefix prefix text_eq
strip-encode none [] h = unfold encode_to_string in refl
strip-encode none (b ∷ bs) (h, _) =
    let (no_lower, no_upper) = encode_to_string-no_x b bs h in
    unfold has_hex_prefix in rw (no_lower, no_upper)
strip-encode lower bs h = refl
strip-encode upper bs h = refl

-- The text is one of the prefixes with the rest behind it.
strip-prefix : (s : Text) → (p : HexPrefix) × (s ≡ prefix p ++ strip_hex_prefix s)
unfolding strip_hex_prefix has_hex_prefix prefix
strip-prefix [] = (none, unfold text_eq in refl)
strip-prefix (x ∷ []) = (none, unfold text_eq in ground arith)
strip-prefix (x ∷ y ∷ s) = elim (Bool-cases (text_eq (x ∷ y ∷ []) (codes "0x"))) [
  | inl e ↦ (lower, rw e (ap (λ t. t ++ s) (eq_of_text_eq (x ∷ y ∷ []) (codes "0x") e)))
  | inr h ↦ elim (Bool-cases (text_eq (x ∷ y ∷ []) (codes "0X"))) [
    | inl e ↦ (upper, rw (h, e) (ap (λ t. t ++ s) (eq_of_text_eq (x ∷ y ∷ []) (codes "0X") e)))
    | inr k ↦ (none, rw (h, k))
  ]
]

-- The file's object as `ExtractByteCode` finds it.
abbrev pub Holds : DeployLib → Text → Text → Type 0
Holds D name object =
    (contents : Bytes) × (D.read_file name ≡ ok contents)
    × (D.unmarshal_object contents ≡ ok object)

module _ (D : DeployLib) where
  -- A file whose object spells some bytes in hexadecimal, behind "0x", "0X" or no prefix, and has two
  -- characters at least, is read as those bytes.
  pub extract_byte_code-encode :
      (name : Text) (p : HexPrefix) (bs : Bytes)
      → AreBytes bs
      → 2 ≤ length (prefix p ++ encode_to_string bs)
      → Holds D name (prefix p ++ encode_to_string bs)
      → extract_byte_code D name ≡ ok bs
  unfolding extract_byte_code
  extract_byte_code-encode name p bs h long (contents, read, object) =
      rw (read, object, strip-encode p bs h, decode_string-encode_to_string bs h) (ground arith)

  extract_object :
      (name : Text) {bs : Bytes}
      → extract_byte_code D name ≡ ok bs
      → (object : Text) × Holds D name object
        × (2 ≤ length object)
        × (decode_string (strip_hex_prefix object) ≡ ok bs)
  unfolding extract_byte_code
  extract_object name h =
      let (contents, read, h') = >>=-eq-ok (wrapping _ (D.read_file name)) _ h in
      let (object, parsed, h'') = >>=-eq-ok (wrapping _ (D.unmarshal_object contents)) _ h' in
      (object, (contents, ground arith, ground arith), ground arith, ground arith)

  -- Whatever is read from a file is made of bytes, and the file's object, which has two characters at least, spells them
  -- in hexadecimal, in letters of either case, behind "0x", "0X" or nothing.
  pub extract_byte_code_sound :
      (name : Text) {bs : Bytes}
      → extract_byte_code D name ≡ ok bs
      → AreBytes bs
        × (object digits : Text) × (p : HexPrefix) × Holds D name object
        × (2 ≤ length object)
        × (object ≡ prefix p ++ digits)
        × (encode_to_string bs ≡ map lower_hex digits)
  extract_byte_code_sound name {bs} h =
      let (object, holds, long, decoded) = extract_object name h in
      let (bytes, spelled) = decode_string_sound (strip_hex_prefix object) bs decoded in
      let (p, split) = strip-prefix object in
      (bytes, object, strip_hex_prefix object, p, holds, long, split, spelled)
