-- ===== src/Cli/Root.antt =====
-- cmd/teleporter-cli/root.go and the pre-run of transaction.go: the package's variables and who sets them.
pub mod Laws
use teleporter.Base.{
  Option, none, some, List, [], Outcome, ok, fail, panic, ◌>>=◌, if◌then◌else◌, text_eq,
}
use teleporter.Base.{◌≡◌, refl, arith, >>=-eq-ok}
use teleporter.Text.{Text}
use teleporter.Bindings.Types.{Address}
use teleporter.Bindings.Abi.{AbiLib}
use teleporter.Cli.{CliLib}

module _ (C : CliLib) where
  -- The package's variables. `none` is a variable that nobody has set.
  pub record Globals : Type 0 where
    pub log_level_arg : Text
    pub logger : Option C.Level
    pub teleporter_abi : Option C.abi.ContractAbi
    pub rpc_endpoint : Text
    pub teleporter_address : Address
    pub client : Option C.Client

  -- `rootPreRunE`. Of the logger only its level is kept.
  unfoldable pub root_pre_run : Globals → Outcome Globals
  root_pre_run g = do
    let level_arg = if text_eq g.log_level_arg [] then C.info_lower_string else g.log_level_arg
    log_level ← C.to_level level_arg
    abi ← C.abi.get_abi
    ok (record g { log_level_arg = level_arg; logger = some log_level; teleporter_abi = some abi })

  -- `callPersistentPreRunE`: the parent's pre-run if the command has a parent that sets one.
  unfoldable pub call_persistent_pre_run :
      Option (Option (Globals → Outcome Globals)) → Globals → Outcome Globals
  call_persistent_pre_run none g = ok g
  call_persistent_pre_run (some none) g = ok g
  call_persistent_pre_run (some (some pre_run)) g = pre_run g

  -- `transactionPreRunE`. The parent of the command is the root command.
  unfoldable pub transaction_pre_run : Text → Globals → Outcome Globals
  unfolding call_persistent_pre_run
  transaction_pre_run address g = do
    g ← call_persistent_pre_run (some (some root_pre_run)) g
    let g' = record g { teleporter_address = C.hex_to_address address }
    c ← C.dial g'.rpc_endpoint
    ok (record g' { client = some c })
