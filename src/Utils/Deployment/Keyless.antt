-- ===== src/Utils/Deployment/Keyless.antt =====
-- `ConstructKeylessTransaction` of utils/deployment-utils/deployment_utils.go. The files written are
-- returned beside the result, in order.
pub mod Laws
use teleporter.Base.{
  ℕ, ◌+◌, ◌*◌, ◌-◌, leb, ◌&&◌, List, [], ◌∷◌, ◌++◌, Bool, true, false, if◌then◌else◌, String,
}
use teleporter.Base.{Option, none, some, Outcome, ok, fail, panic, new, wrap, ◌>>=◌, wrapping}
use teleporter.Text.{Text, codes}
use teleporter.Text.Hex.{encode_to_string, from_hex_char}
use teleporter.Bindings.Types.{Bytes, Address}
use teleporter.Utils.Deployment.{
  DeployLib, LegacyTx, extract_byte_code, derive_evm_contract_address, Write, rs_value_hex, v_value,
  contract_creation_gas_limit, contract_creation_gas_price, contract_creation_tx_file_name,
  contract_creation_addr_file_name, universal_contract_address_file_name,
}

read_hex : ℕ → Text → Option ℕ
read_hex n [] = some n
read_hex n (c ∷ s) = elim (from_hex_char c) [ none ↦ none | some d ↦ read_hex (n * 16 + d) s ]

-- `new(big.Int).SetString(s, 16)` on a text with no sign.
unfoldable pub set_string_16 : Text → Option ℕ
unfolding read_hex from_hex_char
set_string_16 [] = none
set_string_16 (c ∷ s) = read_hex 0 (c ∷ s)

-- `rsValue, ok := …`
unfoldable pub rs_value : Outcome ℕ
rs_value = elim (set_string_16 rs_value_hex) [
  | none ↦ fail (new "Failed to convert R and S value to big.Int.")
  | some n ↦ ok n
]

-- The legacy transaction with pre-determined signature values.
unfoldable pub contract_creation_tx : ℕ → Bytes → LegacyTx
contract_creation_tx rs_value byte_code = record {
  nonce = 0;
  gas = contract_creation_gas_limit;
  gas_price = contract_creation_gas_price;
  to = none;
  value = 0;
  tx_data = byte_code;
  v = v_value;
  r = rs_value;
  s = rs_value;
}

-- The transaction bytes, the sender and the contract's address.
abbrev pub Keyless : Type 0
Keyless = Bytes × Address × Address

module _ (D : DeployLib) where
  -- All that comes before the first write.
  unfoldable pub construct : Text → Outcome Keyless
  construct byte_code_file_name = do
    rs ← rs_value
    byte_code ← extract_byte_code D byte_code_file_name
    let tx = contract_creation_tx rs byte_code
    sender ← wrapping "Failed to recover the sender address of transaction" (D.sender tx)
    tx_bytes ← wrapping "Failed to serialize raw transaction" (D.marshal_binary tx)
    contract_address ←
        wrapping "Failed to derive contract address" (derive_evm_contract_address D sender 0)
    ok (tx_bytes, sender, contract_address)

  -- The three files, each with the text that an error of its write is wrapped in.
  unfoldable pub deployment_files : Keyless → List (Write × String)
  deployment_files (tx_bytes, sender, contract_address) =
      (
        (contract_creation_tx_file_name, codes "0x" ++ encode_to_string tx_bytes),
        "Failed to write to contract creation tx file",
      )
      ∷ (
        (contract_creation_addr_file_name, D.address_hex sender),
        "Failed to write to deployer address file",
      )
      ∷ (
        (universal_contract_address_file_name, D.address_hex contract_address),
        "Failed to write to contract address",
      )
      ∷ []

  -- The calls of `os.WriteFile` one after the other, up to the first that fails.
  unfoldable pub write_files : List (Write × String) → Keyless → Outcome Keyless × List Write
  write_files [] k = (ok k, [])
  write_files (((name, contents), text) ∷ files) k = elim (D.write_file name contents) [
    | ok _ ↦ let rest = write_files files k in (rest.0, (name, contents) ∷ rest.1)
    | fail e ↦ (fail (wrap text e), [])
    | panic e ↦ (panic e, [])
  ]

  -- `if writeFile { … }` and the return.
  unfoldable pub finish : Outcome Keyless → Bool → Outcome Keyless × List Write
  finish (ok k) true = write_files (deployment_files k) k
  finish (ok k) false = (ok k, [])
  finish (fail e) write_file = (fail e, [])
  finish (panic e) write_file = (panic e, [])

  -- `ConstructKeylessTransaction`
  unfoldable pub construct_keyless_transaction : Text → Bool → Outcome Keyless × List Write
  construct_keyless_transaction byte_code_file_name write_file =
      finish (construct byte_code_file_name) write_file
