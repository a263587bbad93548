-- ===== src/Utils/Gas.antt =====
-- utils/gas-utils/gas_utils.go
pub mod Laws
use teleporter.Base.{ℕ, ◌*◌, ◌%◌, ◌^◌, List, [], ◌∷◌, Option, none, some, if◌then◌else◌}
use teleporter.Base.{ℤ, pos_part, is_uint64, to_uint64, not, Outcome, ok, fail, new, ◌>>=◌}

abbrev pub receive_cross_chain_message_static_gas_cost : ℕ
receive_cross_chain_message_static_gas_cost = 2_000_000

abbrev pub receive_cross_chain_message_gas_cost_per_aggregated_key : ℕ
receive_cross_chain_message_gas_cost_per_aggregated_key = 1_000

abbrev pub receive_message_gas_limit_buffer_amount : ℕ
receive_message_gas_limit_buffer_amount = 100_000

abbrev pub base_fee_factor : ℕ
base_fee_factor = 2

abbrev pub max_priority_fee_per_gas : ℕ
max_priority_fee_per_gas = 2_500_000_000

-- `math.Add64` of avalanchego is a parameter.
module _ (add64 : ℕ → ℕ → Outcome ℕ) where
  -- The loop over `gasAmounts[1:]`.
  unfoldable pub sum_gas : ℕ → List ℕ → Outcome ℕ
  sum_gas res [] = ok res
  sum_gas res (amount ∷ gas_amounts) = add64 res amount >>= λ res. sum_gas res gas_amounts

  -- `CalculateReceiveMessageGasLimit`. The product is uint64 arithmetic and wraps around.
  unfoldable pub calculate_receive_message_gas_limit : ℤ → ℤ → Outcome ℕ
  unfolding sum_gas
  calculate_receive_message_gas_limit num_signers execution_required_gas_limit =
      if not (is_uint64 execution_required_gas_limit)
      then fail (new "required gas limit too high")
      else sum_gas (pos_part execution_required_gas_limit) (
          receive_cross_chain_message_static_gas_cost
          ∷ (to_uint64 num_signers * receive_cross_chain_message_gas_cost_per_aggregated_key)
            % 2 ^ 64
          ∷ receive_message_gas_limit_buffer_amount
          ∷ [])
