-- ===== src/Examples/UtilityRuns.antt =====
-- The utilities at concrete data.
use mathlib.Core.Path.{◌≡◌}
use teleporter.Base.{
  text_eq, ◌+◌, ◌%◌, ◌^◌, ◌≤◌, ◌<◌, refl, [], ◌∷◌, ◌++◌, map, length, true, arith,
}
use teleporter.Base.{pos, pos_part, ok, new}
use teleporter.Text.{Text, codes}
use teleporter.Text.Hex.{AreBytes, encode_to_string, decode_string, lower_hex}
use teleporter.Utils.Gas.{calculate_receive_message_gas_limit}
use teleporter.Utils.Gas.Laws.{
  IsAdd64, expected_limit, calculate_receive_message_gas_limit_lem,
  calculate_receive_message_gas_limit_bounds, calculate_receive_message_gas_limit_wraps,
}
use teleporter.Utils.Deployment.{
  rs_value_hex, derive_evm_contract_address, extract_byte_code, strip_hex_prefix,
}
use teleporter.Utils.Deployment.ContractAddress.{
  big_endian, big_endian_onto, derive_evm_contract_address_lem,
}
use teleporter.Utils.Deployment.ByteCode.{
  HexPrefix, prefix, Holds, extract_byte_code-encode, extract_byte_code_sound,
}
use teleporter.Utils.Deployment.Keyless.{
  construct_keyless_transaction, deployment_files, construct, finish, write_files, rs_value,
  set_string_16,
}
use teleporter.Utils.Deployment.Keyless.Laws.{
  IsKeyless, Begins, planned, expected_files, construct_keyless_transaction_ok,
  construct_keyless_transaction-Begins,
}
use teleporter.Examples.Libraries.{toy_add64, toy_deploy, toy_deploy-IsAddressLib, hash_bytes}

toy_add64-IsAdd64 : IsAdd64 toy_add64 (new "overflow")
toy_add64-IsAdd64 a b = refl

calculate_receive_message_gas_limit_lem_example :
    calculate_receive_message_gas_limit toy_add64 (pos 5) (pos 300_000)
    ≡ expected_limit (new "overflow") 5 (pos 300_000)
calculate_receive_message_gas_limit_lem_example =
    calculate_receive_message_gas_limit_lem toy_add64 (new "overflow") toy_add64-IsAdd64 5
      (pos 300_000) (omega arith)

limit_of_five : calculate_receive_message_gas_limit toy_add64 (pos 5) (pos 300_000) ≡ ok 2_405_000
unfolding calculate_receive_message_gas_limit
limit_of_five = refl

calculate_receive_message_gas_limit_bounds_example :
    (2_405_000 < 2 ^ 64) × (pos_part (pos 300_000) + 2_100_000 ≤ 2_405_000)
calculate_receive_message_gas_limit_bounds_example =
    calculate_receive_message_gas_limit_bounds toy_add64 (new "overflow") toy_add64-IsAdd64 (pos 5)
      (pos 300_000) limit_of_five

calculate_receive_message_gas_limit_wraps_example :
    calculate_receive_message_gas_limit toy_add64 (pos (5 + 2 ^ 61)) (pos 300_000)
    ≡ calculate_receive_message_gas_limit toy_add64 (pos 5) (pos 300_000)
calculate_receive_message_gas_limit_wraps_example =
    calculate_receive_message_gas_limit_wraps toy_add64 (new "overflow") toy_add64-IsAdd64 5
      (pos 300_000)

derive_evm_contract_address_lem_example :
    derive_evm_contract_address toy_deploy 7 1 ≡ ok (big_endian hash_bytes % 2 ^ 160)
derive_evm_contract_address_lem_example =
    derive_evm_contract_address_lem toy_deploy toy_deploy-IsAddressLib 7 1

file-Holds :
    Holds toy_deploy (codes "f") (prefix HexPrefix.lower ++ encode_to_string (0x60 ∷ 0x80 ∷ []))
unfolding prefix encode_to_string
file-Holds = (codes "{}", refl, refl)

extract_byte_code-encode_example : extract_byte_code toy_deploy (codes "f") ≡ ok (0x60 ∷ 0x80 ∷ [])
extract_byte_code-encode_example =
    extract_byte_code-encode toy_deploy (codes "f") HexPrefix.lower (0x60 ∷ 0x80 ∷ []) (omega arith)
      long file-Holds
  where
    long : 2 ≤ length (prefix HexPrefix.lower ++ encode_to_string (0x60 ∷ 0x80 ∷ []))
    long = unfold prefix encode_to_string in omega arith

extract_byte_code_sound_example :
    AreBytes (0x60 ∷ 0x80 ∷ [])
    × (object digits : Text) × (p : HexPrefix) × Holds toy_deploy (codes "f") object
    × (2 ≤ length object)
    × (object ≡ prefix p ++ digits)
    × (encode_to_string (0x60 ∷ 0x80 ∷ []) ≡ map lower_hex digits)
extract_byte_code_sound_example =
    extract_byte_code_sound toy_deploy (codes "f") extract_byte_code-encode_example

keyless_run :
    (construct_keyless_transaction toy_deploy (codes "f") true).0 ≡ ok (1 ∷ 2 ∷ [], 7, 258)
unfolding construct_keyless_transaction construct finish write_files deployment_files rs_value
    set_string_16 rs_value_hex extract_byte_code strip_hex_prefix text_eq decode_string
    derive_evm_contract_address encode_to_string big_endian_onto
keyless_run = refl

construct_keyless_transaction_ok_example :
    IsKeyless toy_deploy (codes "f") (1 ∷ 2 ∷ [], 7, 258)
    × ((construct_keyless_transaction toy_deploy (codes "f") true).1
        ≡ expected_files toy_deploy (1 ∷ 2 ∷ [], 7, 258))
construct_keyless_transaction_ok_example =
    construct_keyless_transaction_ok toy_deploy (codes "f") true keyless_run

construct_keyless_transaction-Begins_example :
    Begins
      (construct_keyless_transaction toy_deploy (codes "f") true).1
      (planned toy_deploy (codes "f") true)
construct_keyless_transaction-Begins_example =
    construct_keyless_transaction-Begins toy_deploy (codes "f") true
