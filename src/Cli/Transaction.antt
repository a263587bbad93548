-- ===== src/Cli/Transaction.antt =====
-- cmd/teleporter-cli/transaction.go
pub mod Laws
pub mod Reads
use teleporter.Base.{List, [], ◌∷◌, ◌==◌, Outcome, ok, fail, panic, if◌then◌else◌}
use teleporter.Text.{Text, codes}
use teleporter.Bindings.Types.{Bytes, Address, Hash, Log}
use teleporter.Bindings.Packing.{unpack_teleporter_message}
use teleporter.Cli.{
  CliLib, Line, Told, tell, check_err, processing_teleporter_log, processing_warp_log,
  parsed_message, transaction_ran, ◌>>=◌, ◌>>◌,
}
use teleporter.Cli.EventCommand.{tell_event}

unfoldable pub warp_precompile_address : Text
warp_precompile_address = codes "0x0200000000000000000000000000000000000005"

module _ (C : CliLib) (teleporter_abi : C.abi.ContractAbi) (message_type : C.abi.AbiType)
    (teleporter_address : Address) where
  -- The body of the first `if` of the loop.
  unfoldable pub process_teleporter_log : Log → Told C.abi.Value (Unit {0})
  process_teleporter_log log = do
    tell (processing_teleporter_log log)
    _ ← tell_event C teleporter_abi log.topics log.log_data
    check_err (ok tt)

  -- The body of the second `if`.
  unfoldable pub process_warp_log : Log → Told C.abi.Value (Unit {0})
  process_warp_log log = do
    tell (processing_warp_log log)
    unsigned_msg ← check_err (C.unpack_send_warp_event_data log.log_data)
    payload ← check_err (C.parse_addressed_call unsigned_msg.payload)
    message ← check_err (unpack_teleporter_message C.abi message_type payload)
    tell (parsed_message unsigned_msg.id message)

  -- One round of the loop. A log of the Warp precompile is tested for even if it is a Teleporter log too.
  unfoldable pub process_log : Log → Told C.abi.Value (Unit {0})
  process_log log = do
    if log.address == teleporter_address then process_teleporter_log log else check_err (ok tt)
    if log.address == C.hex_to_address warp_precompile_address
        then process_warp_log log
        else check_err (ok tt)

  unfoldable pub process_logs : List Log → Told C.abi.Value (Unit {0})
  process_logs [] = check_err (ok tt)
  process_logs (log ∷ logs) = do process_log log; process_logs logs

  -- `transactionCmd.Run`
  unfoldable pub transaction_run : C.Client → Text → Told C.abi.Value (Unit {0})
  transaction_run client tx_hash = do
    logs ← check_err (C.transaction_receipt client (C.hex_to_hash tx_hash))
    process_logs logs
    tell transaction_ran
