-- ===== src/Utils/Deployment/ContractAddress.antt =====
-- `DeriveEVMContractAddress` of utils/deployment-utils/deployment_utils.go: the address as a number.
use native.Mathlib.Nat.{pow-suc, pow-zero}
use teleporter.Base.{take-append-drop, length-drop, sym, ap, ◌∙◌, panic}
use teleporter.Base.{ℕ, zero, suc, ◌+◌, ◌*◌, ◌%◌, ◌^◌, ◌<◌, ◌≡◌, refl, [], ◌∷◌, ◌++◌, arith}
use teleporter.Base.{length, drop, take, Outcome, ok, fail, ◌>>=◌, wrapping}
use teleporter.Text.{codes}
use teleporter.Text.Hex.{encode_to_string, AreBytes}
use teleporter.Bindings.Types.{Bytes, Address}
use teleporter.Utils.Deployment.{DeployLib, derive_evm_contract_address}

-- The big-endian number of a byte slice.
unfoldable pub big_endian_onto : ℕ → Bytes → ℕ
big_endian_onto acc [] = acc
big_endian_onto acc (b ∷ bs) = big_endian_onto (acc * 256 + b) bs

abbrev pub big_endian : Bytes → ℕ
big_endian = big_endian_onto 0

big_endian_onto-split :
    (bs : Bytes) (acc : ℕ) → big_endian_onto acc bs ≡ acc * 256 ^ length bs + big_endian_onto 0 bs
unfolding big_endian_onto
big_endian_onto-split [] acc = simp pow-zero (omega arith)
big_endian_onto-split (b ∷ bs) acc = simp pow-suc (
    grind (arith, big_endian_onto-split bs (acc * 256 + b), big_endian_onto-split bs (0 * 256 + b)))

big_endian-lt : (bs : Bytes) → AreBytes bs → big_endian bs < 256 ^ length bs
unfolding big_endian_onto
big_endian-lt [] h = omega arith
big_endian-lt (b ∷ bs) (h, hs) =
    simp pow-suc (grind (arith, big_endian_onto-split bs (0 * 256 + b), big_endian-lt bs hs))

big_endian-append :
    (xs bs : Bytes) (acc : ℕ)
    → big_endian_onto acc (xs ++ bs) ≡ big_endian_onto (big_endian_onto acc xs) bs
unfolding big_endian_onto
big_endian-append [] bs acc = refl
big_endian-append (a ∷ xs) bs acc = big_endian-append xs bs (acc * 256 + a)

drop-AreBytes : (k : ℕ) (bs : Bytes) → AreBytes bs → AreBytes (drop k bs)
drop-AreBytes zero bs h = h
drop-AreBytes (suc k) [] h = h
drop-AreBytes (suc k) (b ∷ bs) (h, hs) = drop-AreBytes k bs hs

remainder : (q m r : ℕ) → r < m → (q * m + r) % m ≡ r
remainder q m r h = grind arith

-- The number of the last bytes is the remainder of the whole number.
big_endian-drop :
    (k : ℕ) (bs : Bytes)
    → AreBytes bs
    → big_endian (drop k bs) ≡ big_endian bs % 256 ^ length (drop k bs)
big_endian-drop k bs h =
    let tail = drop k bs in
    let split =
      ap big_endian (sym (take-append-drop k bs))
      ∙ big_endian-append (take k bs) tail 0
      ∙ big_endian_onto-split tail (big_endian (take k bs)) in
    sym (
      ap (λ x. x % 256 ^ length tail) split
      ∙ remainder (big_endian (take k bs)) _ _ (big_endian-lt tail (drop-AreBytes k bs h)))

module _ (D : DeployLib) where
  -- A Keccak-256 hash is 32 bytes long, and `HexToAddress` reads 20 bytes in hexadecimal behind "0x" as the
  -- address of that big-endian number.
  pub record IsAddressLib : Type 0 where
    pub keccak256-length : (b : Bytes) → length (D.keccak256 b) ≡ 32
    pub keccak256-AreBytes : (b : Bytes) → AreBytes (D.keccak256 b)
    pub hex_to_address-encode :
        (b : Bytes)
        → AreBytes b
        → length b ≡ 20
        → D.hex_to_address (codes "0x" ++ encode_to_string b) ≡ big_endian b

  -- Where the address and nonce have an RLP encoding, the derived address is the encoding's Keccak-256 hash, as a
  -- big-endian number, modulo 2^160; otherwise the encoder's error comes back with its context.
  pub derive_evm_contract_address_lem :
      IsAddressLib
      → (sender : Address) (nonce : ℕ)
      → derive_evm_contract_address D sender nonce ≡ (
          wrapping "Failed to RLP encode address and nonce value." (D.rlp_encode sender nonce)
          >>= λ rlp. ok (big_endian (D.keccak256 rlp) % 2 ^ 160))
  unfolding derive_evm_contract_address
  derive_evm_contract_address_lem lib sender nonce = go (D.rlp_encode sender nonce)
    where
      hash_tail :
          (rlp : Bytes)
          → D.hex_to_address (codes "0x" ++ encode_to_string (drop 12 (D.keccak256 rlp)))
            ≡ big_endian (D.keccak256 rlp) % 2 ^ 160
      hash_tail rlp =
          let hash = D.keccak256 rlp in
          let n : length (drop 12 hash) ≡ 20 =
            omega (arith, length-drop 12 hash, lib.keccak256-length rlp) in
          let bytes = lib.keccak256-AreBytes rlp in
          lib.hex_to_address-encode (drop 12 hash) (drop-AreBytes 12 hash bytes) n
          ∙ big_endian-drop 12 hash bytes
          ∙ ap (λ k. big_endian hash % 256 ^ k) n

      go :
          (o : Outcome Bytes)
          → (wrapping "Failed to RLP encode address and nonce value." o >>= λ rlp.
              ok (D.hex_to_address (codes "0x" ++ encode_to_string (drop 12 (D.keccak256 rlp)))))
            ≡ (wrapping "Failed to RLP encode address and nonce value." o >>= λ rlp.
                ok (big_endian (D.keccak256 rlp) % 2 ^ 160))
      go (ok rlp) = ap ok (hash_tail rlp)
      go (fail e) = refl
      go (panic e) = refl
