-- ===== src/Examples/CommandRuns.antt =====
-- The commands at concrete data.
use mathlib.Core.Path.{subst}
use teleporter.Base.{
  ℕ, List, ok-injective, ◌≡◌, refl, [], ◌∷◌, ◌++◌, none, some, ok, fail, new, text_eq, arith,
}
use teleporter.Text.{codes}
use teleporter.Text.Hex.{AreBytes, encode_to_string}
use teleporter.Text.{to_lower}
use teleporter.Bindings.Event.{
  to_event, string, send_cross_chain_message_str, receive_cross_chain_message_str,
  add_fee_amount_str,
}
use teleporter.Bindings.Filter.{
  filter_teleporter_events, new_out, teleporter_messenger_add_fee_amount,
}
use teleporter.Bindings.Packing.{unpack_event, indexed_inputs, pack_teleporter_message}
use teleporter.Cli.Transaction.Reads.{
  LogRead, both, undecoded, known_event, unknown_event, not_teleporter, teleporter_message,
  not_warp, no_more, one_more,
}
use teleporter.Cli.{
  Line, processing_teleporter_log, processing_warp_log, parsed_event, parsed_message,
  transaction_ran, message_unpacked, message_ran,
}
use teleporter.Cli.Root.{Globals, transaction_pre_run, root_pre_run}
use teleporter.Cli.Message.{message_run}
use teleporter.Cli.Message.Laws.{message_run-pack, IsMessageCodec}
use teleporter.Cli.Transaction.Laws.{
  run, run_logs, transaction_run-LogsRead, transaction_run_stops, process_logs-relevant,
}
use teleporter.Examples.Libraries.{
  toy_cli, sample, teleporter_log, other_log, warp_log, bad_log, receipt_logs,
}

codec : IsMessageCodec toy_cli tt sample
codec b e = (subst AreBytes (ok-injective e) (omega arith), sample, refl, refl)

message_run-pack_example :
    message_run toy_cli tt (encode_to_string (0x60 ∷ 0x80 ∷ []))
    ≡ (message_unpacked sample ∷ message_ran ∷ [], ok tt)
message_run-pack_example =
    message_run-pack toy_cli tt sample (0x60 ∷ 0x80 ∷ []) codec
      (unfold pack_teleporter_message in refl)

abbrev globals : Globals toy_cli
globals = record {
  log_level_arg = [];
  logger = none;
  teleporter_abi = none;
  rpc_endpoint = codes "rpc";
  teleporter_address = 1;
  client = none;
}

abbrev ready : Globals toy_cli
ready = record {
  log_level_arg = codes "info";
  logger = some 4;
  teleporter_abi = some tt;
  rpc_endpoint = codes "rpc";
  teleporter_address = 0;
  client = some tt;
}

pre_run : transaction_pre_run toy_cli (codes "0x00") globals ≡ ok ready
unfolding transaction_pre_run root_pre_run text_eq
pre_run = refl

-- One log of each kind: an event of the contract, another contract's, a Warp message, an unknown event.
abbrev told_event : List (Line ℕ)
told_event =
    processing_teleporter_log teleporter_log
    ∷ parsed_event (codes "AddFeeAmount") teleporter_messenger_add_fee_amount
        ((codes "abc", 3) ∷ (codes "ab", 2) ∷ (codes "abcd", 4) ∷ [])
    ∷ []

abbrev told_message : List (Line ℕ)
told_message = processing_warp_log warp_log ∷ parsed_message 3 sample ∷ []

good_event : LogRead toy_cli tt tt 0x70 teleporter_log told_event none
unfolding filter_teleporter_events to_event to_lower text_eq new_out unpack_event indexed_inputs
    string send_cross_chain_message_str receive_cross_chain_message_str add_fee_amount_str
good_event =
    both {first = told_event} {second = []}
      (known_event 1 (2 ∷ 4 ∷ []) (codes "AddFeeAmount")
        (
          teleporter_messenger_add_fee_amount,
          (codes "abc", 3) ∷ (codes "ab", 2) ∷ (codes "abcd", 4) ∷ [],
        )
        refl refl refl refl)
      (not_warp (omega arith))

skipped : LogRead toy_cli tt tt 0x70 other_log [] none
skipped = both {first = []} {second = []} (not_teleporter (omega arith)) (not_warp (omega arith))

good_message : LogRead toy_cli tt tt 0x70 warp_log told_message none
good_message = both {first = []} {second = told_message} (not_teleporter (omega arith)) (
    teleporter_message (record { id = 3; payload = 1 ∷ [] }) (1 ∷ []) sample sample refl refl refl
      refl refl)

no_event :
    LogRead toy_cli tt tt 0x70 bad_log
      (processing_teleporter_log bad_log ∷ [])
      (some (new "no event with id"))
no_event = undecoded (unknown_event 100 [] (new "no event with id") refl refl refl)

transaction_run-LogsRead_example :
    run toy_cli tt tt 0x70 tt (codes "0x1")
    ≡ (told_event ++ told_message ++ (transaction_ran ∷ []), ok tt)
transaction_run-LogsRead_example =
    transaction_run-LogsRead toy_cli tt tt 0x70 tt (codes "0x1") (receipt_logs 3)
      (told_event ++ told_message) refl
      (one_more good_event (one_more skipped (one_more good_message no_more)))

transaction_run_stops_example :
    run toy_cli tt tt 0x70 tt (codes "0x123456789")
    ≡ (told_event ++ (processing_teleporter_log bad_log ∷ []), fail (new "no event with id"))
transaction_run_stops_example =
    transaction_run_stops toy_cli tt tt 0x70 tt (codes "0x123456789") (teleporter_log ∷ [])
      (warp_log ∷ []) bad_log told_event (processing_teleporter_log bad_log ∷ [])
      (new "no event with id") refl (one_more good_event no_more) no_event

process_logs-relevant_example :
    run_logs toy_cli tt tt 0x70 (teleporter_log ∷ other_log ∷ [])
    ≡ run_logs toy_cli tt tt 0x70 (teleporter_log ∷ [])
process_logs-relevant_example =
    process_logs-relevant toy_cli tt tt 0x70 (teleporter_log ∷ other_log ∷ [])
