-- ===== src/Cli/Root/Laws.antt =====
-- cmd/teleporter-cli/root.go and transaction.go: what a pre-run leaves for the command.
use teleporter.Base.{◌≡◌, some, [], ok, >>=-eq-ok, if◌then◌else◌, text_eq}
use teleporter.Text.{Text}
use teleporter.Cli.{CliLib}
use teleporter.Cli.Root.{Globals, root_pre_run, transaction_pre_run}

module _ (C : CliLib) where
  -- A pre-run of the transaction command that succeeds leaves every variable set that the command reads: the logger at the level
  -- of `--log` (of "info" if that is empty), the contract's ABI, the address of `--teleporter-address`, and the client
  -- dialled at `--rpc`, which it does not change.
  pub transaction_pre_run_ok :
      (address : Text) (g : Globals C) {g' : Globals C}
      → transaction_pre_run C address g ≡ ok g'
      → (level : C.Level) × (abi : C.abi.ContractAbi) × (client : C.Client) × (C.to_level
            (if text_eq g.log_level_arg [] then C.info_lower_string else g.log_level_arg)
          ≡ ok level)
        × (C.abi.get_abi ≡ ok abi)
        × (C.dial g.rpc_endpoint ≡ ok client)
        × (g' ≡ record {
          log_level_arg =
              if text_eq g.log_level_arg [] then C.info_lower_string else g.log_level_arg;
          logger = some level;
          teleporter_abi = some abi;
          rpc_endpoint = g.rpc_endpoint;
          teleporter_address = C.hex_to_address address;
          client = some client;
        })
  unfolding transaction_pre_run root_pre_run
  transaction_pre_run_ok address g h =
      let level_arg = if text_eq g.log_level_arg [] then C.info_lower_string else g.log_level_arg in
      let (g1, rooted, h') = >>=-eq-ok (root_pre_run C g) _ h in
      let (level, levelled, rooted') = >>=-eq-ok (C.to_level level_arg) _ rooted in
      let (abi, parsed, e) = >>=-eq-ok C.abi.get_abi _ rooted' in
      let (client, dialled, e') = >>=-eq-ok (C.dial g1.rpc_endpoint) _ h' in
      (level, abi, client, levelled, parsed, cc, cc)
