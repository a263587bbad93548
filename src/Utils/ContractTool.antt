-- ===== src/Utils/ContractTool.antt =====
-- utils/contract-deployment/contractDeploymentTools.go: the command line of the deployment tool.
pub mod Laws
use teleporter.Base.{
  ℕ, List, [], ◌∷◌, Bool, true, ◌||◌, ltb, not, ◌==◌, length, if◌then◌else◌, text_eq,
}
use teleporter.Base.{String, Outcome, ok, fail, panic, new, ◌>>=◌, ◌>>◌, or_panic}
use teleporter.Text.{Text, codes}
use teleporter.Text.Decimal.{parse_uint}
use teleporter.Bindings.Types.{Address}
use teleporter.Utils.Deployment.{DeployLib, derive_evm_contract_address, Write}
use teleporter.Utils.Deployment.Keyless.{construct_keyless_transaction}

-- What a run leaves: the lines that it prints on standard output, and the files that it writes.
pub record Output : Type 0 where
  pub lines : List Text
  pub written : List Write

unfoldable pub construct_keyless_tx_command : Text
construct_keyless_tx_command = codes "constructKeylessTx"

unfoldable pub derive_contract_address_command : Text
derive_contract_address_command = codes "deriveContractAddress"

-- `log.Panic` with the files that were written before it.
abbrev pub Exit : Type 0
Exit = Outcome (Unit {0}) × Output

abbrev pub panics : String → Exit
panics text = (panic (new text), record { lines = []; written = [] })

module _ (D : DeployLib) where
  construct_command : List Text → Exit
  construct_command (_ ∷ _ ∷ file ∷ []) =
      let (result, written) = construct_keyless_transaction D file true in
      (
        (or_panic "Failed to construct keyless transaction." result >>= λ _. ok tt),
        record { lines = []; written = written },
      )
  construct_command _ =
      panics "Invalid argument count. Must provide JSON file containing contract bytecode."

  -- The address that the command prints.
  unfoldable pub derived : Text → Text → Outcome Address
  derived address nonce_arg = do
    let deployer_address = D.hex_to_address address
    nonce ← or_panic "Failed to parse nonce as uint" (parse_uint nonce_arg 64)
    or_panic "Failed to derive contract address."
        (derive_evm_contract_address D deployer_address nonce)

  print_address : Outcome Address → Exit
  print_address (ok a) = (ok tt, record { lines = D.address_hex a ∷ []; written = [] })
  print_address (fail e) = (fail e, record { lines = []; written = [] })
  print_address (panic e) = (panic e, record { lines = []; written = [] })

  derive_command : List Text → Exit
  derive_command (_ ∷ _ ∷ address ∷ nonce ∷ []) = print_address (derived address nonce)
  derive_command _ = panics "Invalid argument count. Must provide address and nonce."

  -- `main`, given `os.Args`.
  unfoldable pub main : List Text → Exit
  unfolding construct_command derive_command print_address derived
  main (program ∷ command ∷ args) =
      if text_eq command construct_keyless_tx_command
      then construct_command (program ∷ command ∷ args)
      else if text_eq command derive_contract_address_command
      then derive_command (program ∷ command ∷ args)
      else panics
          "Invalid command type. Supported options are \"constructKeylessTx\" and \"deriveContractAddress\"."
  main _ =
      panics "Invalid argument count. Must provide at least one argument to specify command type."
