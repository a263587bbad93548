-- ===== src/Utils/Gas/Laws.antt =====
-- utils/gas-utils/gas_utils.go: the limit, its bounds and its errors.
use teleporter.Base.{ℕ, ◌+◌, ◌*◌, ◌%◌, ◌^◌, ◌≤◌, ◌<◌, ◌≡◌, refl, arith}
use teleporter.Base.{
  ltb, leb, if◌then◌else◌, ℤ, pos, negsuc, pos_part, to_uint64, Outcome, ok, fail, GoError, new,
}
use teleporter.Utils.Gas.{calculate_receive_message_gas_limit}

-- `math.Add64`: the sum, or the error `overflow` where it does not fit uint64.
abbrev pub IsAdd64 : (ℕ → ℕ → Outcome ℕ) → GoError → Type 0
IsAdd64 add64 overflow =
    (a b : ℕ) → add64 a b ≡ (if ltb (a + b) (2 ^ 64) then ok (a + b) else fail overflow)

signers_wrap : (n : ℕ) → ((n + 2 ^ 61) % 2 ^ 64 * 1_000) % 2 ^ 64 ≡ (n % 2 ^ 64 * 1_000) % 2 ^ 64
signers_wrap n = omega arith

-- The limit as the sum of its four parts, with no loop and no bound on the parts before the end.
unfoldable pub expected_limit : GoError → ℕ → ℤ → Outcome ℕ
expected_limit overflow n (negsuc m) = fail (new "required gas limit too high")
expected_limit overflow n (pos limit) =
    let total = limit + 2_000_000 + n * 1_000 + 100_000 in
    if leb (2 ^ 64) limit
    then fail (new "required gas limit too high")
    else if ltb total (2 ^ 64)
    then ok total
    else fail overflow

module _ (add64 : ℕ → ℕ → Outcome ℕ) (overflow : GoError) (adds : IsAdd64 add64 overflow) where
  -- If the additions report overflow and the signers' cost fits uint64, the limit is the sum of the four gas
  -- amounts where the required limit and that sum fit uint64, the error "required gas limit too
  -- high" for a required limit outside uint64 (a negative one too), and the addition's error otherwise.
  pub calculate_receive_message_gas_limit_lem :
      (n : ℕ) (limit : ℤ)
      → n * 1_000 < 2 ^ 64
      → calculate_receive_message_gas_limit add64 (pos n) limit ≡ expected_limit overflow n limit
  unfolding calculate_receive_message_gas_limit expected_limit
  calculate_receive_message_gas_limit_lem n (negsuc m) h = refl
  calculate_receive_message_gas_limit_lem n (pos limit) h = ground (
    arith,
    adds limit 2_000_000,
    adds (limit + 2_000_000) ((n % 2 ^ 64 * 1_000) % 2 ^ 64),
    adds (limit + 2_000_000 + (n % 2 ^ 64 * 1_000) % 2 ^ 64) 100_000,
  )

  -- Whatever the number of signers, also a negative one, a limit that is returned fits uint64 and covers the
  -- required limit, the static cost and the buffer.
  pub calculate_receive_message_gas_limit_bounds :
      (n : ℤ) (limit : ℤ) {gas : ℕ}
      → calculate_receive_message_gas_limit add64 n limit ≡ ok gas
      → (gas < 2 ^ 64) × (pos_part limit + 2_100_000 ≤ gas)
  unfolding calculate_receive_message_gas_limit
  calculate_receive_message_gas_limit_bounds n limit h =
      let signers = (to_uint64 n * 1_000) % 2 ^ 64 in
      ground (
        arith,
        adds (pos_part limit) 2_000_000,
        adds (pos_part limit + 2_000_000) signers,
        adds (pos_part limit + 2_000_000 + signers) 100_000,
      )

  -- The signers' cost is the one term whose overflow is not reported: 2^61 signers more cost nothing.
  pub calculate_receive_message_gas_limit_wraps :
      (n : ℕ) (limit : ℤ)
      → calculate_receive_message_gas_limit add64 (pos (n + 2 ^ 61)) limit
        ≡ calculate_receive_message_gas_limit add64 (pos n) limit
  unfolding calculate_receive_message_gas_limit
  calculate_receive_message_gas_limit_wraps n limit = rw (signers_wrap n)
