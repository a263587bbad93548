-- ===== src/Cli/EventCommand.antt =====
-- cmd/teleporter-cli/event.go
use teleporter.Base.{List, [], ◌∷◌, map, Outcome, ok, panic, new}
use teleporter.Text.{Text}
use teleporter.Bindings.Types.{Bytes, Hash}
use teleporter.Bindings.Filter.{filter_teleporter_events}
use teleporter.Cli.{CliLib, Told, tell, check_err, parsed_event, event_ran, ◌>>=◌, ◌>>◌}

-- `topics[0]`
unfoldable pub first_topic : List Hash → Outcome Hash
first_topic [] = panic (new "index out of range [0] with length 0")
first_topic (t ∷ topics) = ok t

module _ (C : CliLib) where
  -- The lines of a log that both commands parse and tell.
  unfoldable pub tell_event : C.abi.ContractAbi → List Hash → Bytes → Told C.abi.Value Text
  unfolding first_topic
  tell_event teleporter_abi topics log_data = do
    topic ← check_err (first_topic topics)
    name ← check_err (C.abi.event_by_id teleporter_abi topic)
    out ← check_err (filter_teleporter_events C.abi C.beyond topics log_data name)
    tell (parsed_event name out.0 out.1)
    check_err (ok name)

  -- `eventRun`, given the values of `--topics` and `--data`.
  unfoldable pub event_run : C.abi.ContractAbi → List Text → Bytes → Told C.abi.Value (Unit {0})
  event_run teleporter_abi topic_args log_data = do
    let topics = map C.hex_to_hash topic_args
    name ← tell_event teleporter_abi topics log_data
    tell (event_ran name)
