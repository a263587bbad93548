-- ===== src/Utils/ContractTool/Laws.antt =====
-- utils/contract-deployment/contractDeploymentTools.go: which command lines succeed, and what they print.
use teleporter.Base.{ℕ, ◌≡◌, ◌^◌, ◌<◌, List, [], ◌∷◌, true, text_eq}
use teleporter.Base.{ok}
use teleporter.Text.{Text}
use teleporter.Text.Decimal.{parse_uint, format_uint, parse_uint-format_uint}
use teleporter.Bindings.Types.{Address}
use teleporter.Utils.Deployment.{DeployLib, derive_evm_contract_address}
use teleporter.Utils.Deployment.Keyless.{Keyless, construct_keyless_transaction}
use teleporter.Utils.ContractTool.{
  Output, main, construct_keyless_tx_command, derive_contract_address_command,
}

module _ (D : DeployLib) where
  -- `deriveContractAddress` with any address and the decimal print of any nonce that is a uint64 prints the address that
  -- `DeriveEVMContractAddress` derives from the two, and writes no file.
  pub main_derive :
      (program address : Text) (n : ℕ) {a : Address}
      → n < 2 ^ 64
      → derive_evm_contract_address D (D.hex_to_address address) n ≡ ok a
      → main D (program ∷ derive_contract_address_command ∷ address ∷ format_uint n ∷ [])
        ≡ (ok tt, record { lines = D.address_hex a ∷ []; written = [] })
  unfolding main text_eq derive_contract_address_command construct_keyless_tx_command
  main_derive program address n h derives = rw (parse_uint-format_uint 64 n h, derives)

  -- The command lines that succeed: the two commands with their exact number of arguments.
  abbrev pub Constructs : List Text → Output → Type 0
  Constructs args out =
      (program file : Text) × (k : Keyless) × (args
        ≡ program ∷ construct_keyless_tx_command ∷ file ∷ [])
      × ((construct_keyless_transaction D file true).0 ≡ ok k)
      × (out ≡ record { lines = []; written = (construct_keyless_transaction D file true).1 })

  abbrev pub Derives : List Text → Output → Type 0
  Derives args out =
      (program address nonce_arg : Text) × (n : ℕ) × (a : Address) × (args
        ≡ program ∷ derive_contract_address_command ∷ address ∷ nonce_arg ∷ [])
      × (parse_uint nonce_arg 64 ≡ ok n)
      × (derive_evm_contract_address D (D.hex_to_address address) n ≡ ok a)
      × (out ≡ record { lines = D.address_hex a ∷ []; written = [] })
