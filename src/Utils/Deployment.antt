-- ===== src/Utils/Deployment.antt =====
-- utils/deployment-utils/deployment_utils.go, over a parameter for the packages rlp, crypto, common and
-- types, for the file system and for the JSON decoder.
pub mod ContractAddress
pub mod ByteCode
pub mod Keyless
use teleporter.Base.{ℕ, ltb, not, List, [], ◌∷◌, ◌++◌, Bool, true, false, ◌||◌, if◌then◌else◌}
use teleporter.Base.{Option, none, some, length, drop, take, text_eq, String}
use teleporter.Base.{Outcome, ok, new, ◌>>=◌, ◌>>◌, wrapping, guard}
use teleporter.Text.{Text, codes}
use teleporter.Text.Hex.{encode_to_string, decode_string}
use teleporter.Bindings.Types.{Bytes, Address}

-- `types.LegacyTx`
pub record LegacyTx : Type 0 where
  pub nonce : ℕ
  pub gas : ℕ
  pub gas_price : ℕ
  pub to : Option Address
  pub value : ℕ
  pub tx_data : Bytes
  pub v : ℕ
  pub r : ℕ
  pub s : ℕ

pub record DeployLib : Type 0 where
  -- `rlp.EncodeToBytes` of an address and a nonce, and `crypto.Keccak256Hash`
  pub rlp_encode : Address → ℕ → Outcome Bytes
  pub keccak256 : Bytes → Bytes
  -- `common.HexToAddress`, and the checksummed print of an address
  pub hex_to_address : Text → Address
  pub address_hex : Address → Text
  -- `types.HomesteadSigner{}.Sender` and `MarshalBinary`
  pub sender : LegacyTx → Outcome Address
  pub marshal_binary : LegacyTx → Outcome Bytes
  -- `os.ReadFile`, the field `bytecode.object` of a JSON text, and whether `os.WriteFile` fails
  pub read_file : Text → Outcome Bytes
  pub unmarshal_object : Bytes → Outcome Text
  pub write_file : Text → Text → Outcome (Unit {0})

abbrev pub contract_creation_gas_limit : ℕ
contract_creation_gas_limit = 4_000_000

unfoldable pub rs_value_hex : Text
rs_value_hex = codes "3333333333333333333333333333333333333333333333333333333333333333"

unfoldable pub contract_creation_tx_file_name : Text
contract_creation_tx_file_name = codes "UniversalTeleporterDeployerTransaction.txt"

unfoldable pub contract_creation_addr_file_name : Text
contract_creation_addr_file_name = codes "UniversalTeleporterDeployerAddress.txt"

unfoldable pub universal_contract_address_file_name : Text
universal_contract_address_file_name = codes "UniversalTeleporterMessengerContractAddress.txt"

abbrev pub v_value : ℕ
v_value = 27

abbrev pub contract_creation_gas_price : ℕ
contract_creation_gas_price = 2_500_000_000_000

-- `byteCodeString[:2] == "0x" || byteCodeString[:2] == "0X"`
unfoldable pub has_hex_prefix : Text → Bool
has_hex_prefix s = text_eq (take 2 s) (codes "0x") || text_eq (take 2 s) (codes "0X")

-- Strip off a leading 0x if present.
unfoldable pub strip_hex_prefix : Text → Text
unfolding has_hex_prefix
strip_hex_prefix s = if has_hex_prefix s then drop 2 s else s

-- A file written, with its contents.
abbrev pub Write : Type 0
Write = Text × Text

module _ (D : DeployLib) where
  -- `DeriveEVMContractAddress`
  unfoldable pub derive_evm_contract_address : Address → ℕ → Outcome Address
  derive_evm_contract_address sender nonce = do
    rlp_encoded ←
        wrapping "Failed to RLP encode address and nonce value." (D.rlp_encode sender nonce)
    ok (D.hex_to_address (codes "0x" ++ encode_to_string (drop 12 (D.keccak256 rlp_encoded))))

  -- `ExtractByteCode`
  unfoldable pub extract_byte_code : Text → Outcome Bytes
  extract_byte_code byte_code_file_name = do
    contents ← wrapping "Failed to read bytecode file contents" (D.read_file byte_code_file_name)
    byte_code_string ←
        wrapping "Failed to unmarshal bytecode file contents as JSON" (D.unmarshal_object contents)
    guard (not (ltb (length byte_code_string) 2)) (new "Invalid byte code length.")
    wrapping "Failed to decode bytecode string as hexadecimal."
        (decode_string (strip_hex_prefix byte_code_string))
