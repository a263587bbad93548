-- ===== src/Cli/Transaction/Laws.antt =====
-- cmd/teleporter-cli/transaction.go: which logs the command reads, and where it stops.
use mathlib.Core.List.{append_assoc, append-nil}
use teleporter.Base.{
  ◌≡◌, refl, sym, ◌∙◌, ap, List, [], ◌∷◌, ◌++◌, ◌==◌, ◌||◌, Bool, true, false, arith, if◌then◌else◌,
}
use teleporter.Base.{ok, fail, GoError, some}
use teleporter.Text.{Text}
use teleporter.Bindings.Types.{Address, Log}
use teleporter.Cli.{CliLib, Line, Told, after_lines, transaction_ran, ◌>>◌}
use teleporter.Cli.Transaction.Reads.{LogRead, LogsRead, no_more, one_more, process_log-LogRead}
use teleporter.Cli.Transaction.{process_log, process_logs, transaction_run, warp_precompile_address}

module _ (C : CliLib) (teleporter_abi : C.abi.ContractAbi) (message_type : C.abi.AbiType)
    (teleporter_address : Address) where
  -- What is told about one log, and its result.
  abbrev pub report : Log → Told C.abi.Value (Unit {0})
  report = process_log C teleporter_abi message_type teleporter_address

  abbrev pub run_logs : List Log → Told C.abi.Value (Unit {0})
  run_logs = process_logs C teleporter_abi message_type teleporter_address

  abbrev pub run : C.Client → Text → Told C.abi.Value (Unit {0})
  run = transaction_run C teleporter_abi message_type teleporter_address

  abbrev Lines : Type 0
  Lines = List (Line C.abi.Value)

  after_lines-append :
      (first rest : Lines) (m : Told C.abi.Value (Unit {0}))
      → after_lines first (after_lines rest m) ≡ after_lines (first ++ rest) m
  after_lines-append first rest (lines, o) = ap (λ l. (l, o)) (sym (append_assoc first rest lines))

  -- The loop over logs that are read without an error goes on with their lines told.
  run_logs-LogsRead :
      {logs : List Log} {lines : Lines} (after : List Log)
      → LogsRead C teleporter_abi message_type teleporter_address logs lines
      → run_logs (logs ++ after) ≡ after_lines lines (run_logs after)
  unfolding process_logs
  run_logs-LogsRead after no_more = refl
  run_logs-LogsRead after (one_more {log} {logs} {first} {rest} read reads) =
      ap (λ m. m >> run_logs (logs ++ after))
        (process_log-LogRead C teleporter_abi message_type teleporter_address log read)
      ∙ ap (after_lines first) (run_logs-LogsRead after reads)
      ∙ after_lines-append first rest (run_logs after)

  -- If the receipt is found and each of its logs is read without an error, the command tells the lines of the readings
  -- in the order of the logs, then that it ran successfully. A log of the Teleporter contract is read as one of its
  -- events, a log of the Warp precompile as a Teleporter message, a log of neither as nothing.
  pub transaction_run-LogsRead :
      (client : C.Client) (tx_hash : Text) (logs : List Log) (lines : Lines)
      → C.transaction_receipt client (C.hex_to_hash tx_hash) ≡ ok logs
      → LogsRead C teleporter_abi message_type teleporter_address logs lines
      → run client tx_hash ≡ (lines ++ (transaction_ran ∷ []), ok tt)
  unfolding transaction_run process_logs
  transaction_run-LogsRead client tx_hash logs lines found reads = rw found (
      ap (λ m. m >> (transaction_ran ∷ [], ok tt))
        (ap run_logs (sym (append-nil logs))
          ∙ run_logs-LogsRead [] reads
          ∙ ap (λ l. (l, ok tt)) (append-nil lines)))

  -- At the first log that has an error in its reading, be it that of the Teleporter contract's ABI, of
  -- FilterTeleporterEvents, or of a step in decoding a Warp message, the command exits with it: it has told the lines of the
  -- logs before it and of that one up to the error, nothing of a later one, and no success.
  pub transaction_run_stops :
      (client : C.Client) (tx_hash : Text) (before after : List Log) (bad : Log)
      (lines more : Lines) (e : GoError)
      → C.transaction_receipt client (C.hex_to_hash tx_hash) ≡ ok (before ++ (bad ∷ after))
      → LogsRead C teleporter_abi message_type teleporter_address before lines
      → LogRead C teleporter_abi message_type teleporter_address bad more (some e)
      → run client tx_hash ≡ (lines ++ more, fail e)
  unfolding transaction_run process_logs
  transaction_run_stops client tx_hash before after bad lines more e found reads read = rw found (
      ap (λ m. m >> (transaction_ran ∷ [], ok tt))
        (run_logs-LogsRead (bad ∷ after) reads
          ∙ ap (λ m. after_lines lines (m >> run_logs after))
              (process_log-LogRead C teleporter_abi message_type teleporter_address bad read)))

  abbrev is_relevant : Log → Bool
  is_relevant log =
      log.address == teleporter_address || log.address == C.hex_to_address warp_precompile_address

  -- The logs of the two contracts.
  abbrev pub relevant : List Log → List Log
  relevant [] = []
  relevant (log ∷ logs) = if is_relevant log then log ∷ relevant logs else relevant logs

  report-of_irrelevant : (log : Log) → is_relevant log ≡ false → report log ≡ ([], ok tt)
  unfolding process_log
  report-of_irrelevant log h = ground arith

  relevant_step :
      (log : Log) (logs : List Log) (b : Bool)
      → is_relevant log ≡ b
      → run_logs logs ≡ run_logs (relevant logs)
      → run_logs (log ∷ logs) ≡ run_logs (if b then log ∷ relevant logs else relevant logs)
  unfolding process_logs
  relevant_step log logs true h ih = ap (λ k. report log >> k) ih
  relevant_step log logs false h ih = rw (report-of_irrelevant log h) ih

  -- Logs of other contracts make no difference to the lines or the result.
  pub process_logs-relevant : (logs : List Log) → run_logs logs ≡ run_logs (relevant logs)
  process_logs-relevant [] = refl
  process_logs-relevant (log ∷ logs) =
      relevant_step log logs (is_relevant log) refl (process_logs-relevant logs)
