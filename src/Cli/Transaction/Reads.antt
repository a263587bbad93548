-- ===== src/Cli/Transaction/Reads.antt =====
-- cmd/teleporter-cli/transaction.go: what the packages make of a log, apart from the code of the command that asks them. A
-- panic of theirs, and a log of the Teleporter contract with no topic, at which the command panics, are no reading.
use teleporter.Base.{
  ◌≡◌, ◌≢◌, refl, List, [], ◌∷◌, ◌++◌, ◌==◌, true, false, Option, none, some, ok, fail, GoError,
  wrap, String, ap, ◌∙◌, false, arith, if◌then◌else◌,
}
use teleporter.Text.{Text, codes}
use teleporter.Bindings.Types.{Bytes, Address, Hash, Log, TeleporterMessage}
use teleporter.Bindings.Filter.{EventStruct, filter_teleporter_events}
use teleporter.Bindings.Packing.{unpack_teleporter_message}
use teleporter.Cli.{
  CliLib, Line, Told, UnsignedMessage, after_lines, check_err, ◌>>=◌, ◌>>◌,
  processing_teleporter_log, processing_warp_log, parsed_event, parsed_message,
}
use teleporter.Cli.EventCommand.{tell_event, first_topic}
use teleporter.Cli.Transaction.{
  process_log, process_teleporter_log, process_warp_log, warp_precompile_address,
}

module _ (C : CliLib) (teleporter_abi : C.abi.ContractAbi) (message_type : C.abi.AbiType)
    (teleporter_address : Address) where
  abbrev pub Lines : Type 0
  Lines = List (Line C.abi.Value)

  -- The command's answer to a reading: an error is an exit.
  abbrev pub answer : Lines → Option GoError → Told C.abi.Value (Unit {0})
  answer lines none = (lines, ok tt)
  answer lines (some e) = (lines, fail e)

  -- A log as one of the Teleporter contract: its lines, and the error of the ABI or of FilterTeleporterEvents.
  pub data TeleporterRead (log : Log) : Lines → Option GoError → Type 0 where
    not_teleporter : log.address ≢ teleporter_address → TeleporterRead log [] none
    known_event :
        (topic : Hash) (topics : List Hash) (name : Text)
        (out : EventStruct × List (Text × C.abi.Value))
        → log.address ≡ teleporter_address
        → log.topics ≡ topic ∷ topics
        → C.abi.event_by_id teleporter_abi topic ≡ ok name
        → filter_teleporter_events C.abi C.beyond log.topics log.log_data name ≡ ok out
        → TeleporterRead log
            (processing_teleporter_log log ∷ parsed_event name out.0 out.1 ∷ [])
            none
    unknown_event :
        (topic : Hash) (topics : List Hash) (e : GoError)
        → log.address ≡ teleporter_address
        → log.topics ≡ topic ∷ topics
        → C.abi.event_by_id teleporter_abi topic ≡ fail e
        → TeleporterRead log (processing_teleporter_log log ∷ []) (some e)
    refused_event :
        (topic : Hash) (topics : List Hash) (name : Text) (e : GoError)
        → log.address ≡ teleporter_address
        → log.topics ≡ topic ∷ topics
        → C.abi.event_by_id teleporter_abi topic ≡ ok name
        → filter_teleporter_events C.abi C.beyond log.topics log.log_data name ≡ fail e
        → TeleporterRead log (processing_teleporter_log log ∷ []) (some e)

  abbrev pub warp_address : Address
  warp_address = C.hex_to_address (codes "0x0200000000000000000000000000000000000005")

  abbrev pub message_arguments : List (String × C.abi.AbiType)
  message_arguments = ("teleporterMessage", message_type) ∷ []

  -- A log as one of the Warp precompile: its event's data hold an unsigned message, whose payload is an addressed call,
  -- whose payload is a Teleporter message, each as its package decodes it.
  pub data WarpRead (log : Log) : Lines → Option GoError → Type 0 where
    not_warp : log.address ≢ warp_address → WarpRead log [] none
    teleporter_message :
        (unsigned : UnsignedMessage) (payload : Bytes) (values : C.abi.Values)
        (message : TeleporterMessage)
        → log.address ≡ warp_address
        → C.unpack_send_warp_event_data log.log_data ≡ ok unsigned
        → C.parse_addressed_call unsigned.payload ≡ ok payload
        → C.abi.unpack_arguments message_arguments payload ≡ ok values
        → C.abi.copy_arguments message_arguments values ≡ ok message
        → WarpRead log (processing_warp_log log ∷ parsed_message unsigned.id message ∷ []) none
    no_unsigned_message :
        (e : GoError)
        → log.address ≡ warp_address
        → C.unpack_send_warp_event_data log.log_data ≡ fail e
        → WarpRead log (processing_warp_log log ∷ []) (some e)
    no_addressed_call :
        (unsigned : UnsignedMessage) (e : GoError)
        → log.address ≡ warp_address
        → C.unpack_send_warp_event_data log.log_data ≡ ok unsigned
        → C.parse_addressed_call unsigned.payload ≡ fail e
        → WarpRead log (processing_warp_log log ∷ []) (some e)
    no_values :
        (unsigned : UnsignedMessage) (payload : Bytes) (e : GoError)
        → log.address ≡ warp_address
        → C.unpack_send_warp_event_data log.log_data ≡ ok unsigned
        → C.parse_addressed_call unsigned.payload ≡ ok payload
        → C.abi.unpack_arguments message_arguments payload ≡ fail e
        → WarpRead log
            (processing_warp_log log ∷ [])
            (some (wrap "failed to unpack to teleporter message with err" e))
    no_message :
        (unsigned : UnsignedMessage) (payload : Bytes) (values : C.abi.Values) (e : GoError)
        → log.address ≡ warp_address
        → C.unpack_send_warp_event_data log.log_data ≡ ok unsigned
        → C.parse_addressed_call unsigned.payload ≡ ok payload
        → C.abi.unpack_arguments message_arguments payload ≡ ok values
        → C.abi.copy_arguments message_arguments values ≡ fail e
        → WarpRead log (processing_warp_log log ∷ []) (some e)

  -- A log is read as the one, and if that has no error as the other.
  pub data LogRead (log : Log) : Lines → Option GoError → Type 0 where
    both :
        {first second : Lines} {result : Option GoError}
        → TeleporterRead log first none
        → WarpRead log second result
        → LogRead log (first ++ second) result
    undecoded :
        {lines : Lines} {e : GoError}
        → TeleporterRead log lines (some e)
        → LogRead log lines (some e)

  -- Every log is read without an error.
  pub data LogsRead : List Log → Lines → Type 0 where
    no_more : LogsRead [] []
    one_more :
        {log : Log} {logs : List Log} {first rest : Lines}
        → LogRead log first none
        → LogsRead logs rest
        → LogsRead (log ∷ logs) (first ++ rest)

  abbrev teleporter_part : Log → Told C.abi.Value (Unit {0})
  teleporter_part log =
      if log.address == teleporter_address
      then process_teleporter_log C teleporter_abi message_type teleporter_address log
      else ([], ok tt)

  abbrev warp_part : Log → Told C.abi.Value (Unit {0})
  warp_part log =
      if log.address == C.hex_to_address warp_precompile_address
      then process_warp_log C teleporter_abi message_type teleporter_address log
      else ([], ok tt)

  first :
      (all : List Hash) (topic : Hash) (topics : List Hash)
      → all ≡ topic ∷ topics
      → first_topic all ≡ ok topic
  unfolding first_topic
  first all topic topics h = rw h refl

  test_of_eq : (a b : Address) → a ≡ b → (a == b) ≡ true
  test_of_eq a b h = ground arith

  test_of_ne : (a b : Address) → a ≢ b → (a == b) ≡ false
  test_of_ne a b h = ground arith

  tell_event-known :
      (log : Log) (topic : Hash) (name : Text) (out : EventStruct × List (Text × C.abi.Value))
      → first_topic log.topics ≡ ok topic
      → C.abi.event_by_id teleporter_abi topic ≡ ok name
      → filter_teleporter_events C.abi C.beyond log.topics log.log_data name ≡ ok out
      → tell_event C teleporter_abi log.topics log.log_data
        ≡ (parsed_event name out.0 out.1 ∷ [], ok name)
  unfolding tell_event
  tell_event-known log topic name out begins named filtered = simp (begins, named, filtered)

  tell_event-unknown :
      (log : Log) (topic : Hash) (e : GoError)
      → first_topic log.topics ≡ ok topic
      → C.abi.event_by_id teleporter_abi topic ≡ fail e
      → tell_event C teleporter_abi log.topics log.log_data ≡ ([], fail e)
  unfolding tell_event
  tell_event-unknown log topic e begins unnamed = simp (begins, unnamed)

  tell_event-refused :
      (log : Log) (topic : Hash) (name : Text) (e : GoError)
      → first_topic log.topics ≡ ok topic
      → C.abi.event_by_id teleporter_abi topic ≡ ok name
      → filter_teleporter_events C.abi C.beyond log.topics log.log_data name ≡ fail e
      → tell_event C teleporter_abi log.topics log.log_data ≡ ([], fail e)
  unfolding tell_event
  tell_event-refused log topic name e begins named refused = simp (begins, named, refused)

  -- The body of the first test, when the event is told or refused.
  after_event :
      (log : Log) {told : Told C.abi.Value Text}
      → tell_event C teleporter_abi log.topics log.log_data ≡ told
      → log.address ≡ teleporter_address
      → teleporter_part log
        ≡ after_lines (processing_teleporter_log log ∷ []) (told >>= λ _. check_err (ok tt))
  unfolding process_teleporter_log
  after_event log h at =
      rw (test_of_eq log.address teleporter_address at) (
        ap (λ m. after_lines (processing_teleporter_log log ∷ []) (m >>= λ _. check_err (ok tt))) h)

  teleporter_part-Read :
      (log : Log) {lines : Lines} {result : Option GoError}
      → TeleporterRead log lines result
      → teleporter_part log ≡ answer lines result
  teleporter_part-Read log (not_teleporter other) =
      rw (test_of_ne log.address teleporter_address other)
  teleporter_part-Read log (known_event topic topics name out at begins named filtered) =
      after_event log
        (tell_event-known log topic name out (first log.topics topic topics begins) named filtered)
        at
  teleporter_part-Read log (unknown_event topic topics e at begins unnamed) =
      after_event log
        (tell_event-unknown log topic e (first log.topics topic topics begins) unnamed) at
  teleporter_part-Read log (refused_event topic topics name e at begins named refused) =
      after_event log
        (tell_event-refused log topic name e (first log.topics topic topics begins) named refused)
        at

  warp_part-Read :
      (log : Log) {lines : Lines} {result : Option GoError}
      → WarpRead log lines result
      → warp_part log ≡ answer lines result
  unfolding process_warp_log unpack_teleporter_message warp_precompile_address
  warp_part-Read log (not_warp other) = rw (test_of_ne log.address warp_address other)
  warp_part-Read log
        (teleporter_message unsigned payload values message at event call unpacked copied) =
      rw (test_of_eq log.address warp_address at, event, call, unpacked, copied)
  warp_part-Read log (no_unsigned_message e at event) =
      rw (test_of_eq log.address warp_address at, event)
  warp_part-Read log (no_addressed_call unsigned e at event call) =
      rw (test_of_eq log.address warp_address at, event, call)
  warp_part-Read log (no_values unsigned payload e at event call unpacked) =
      rw (test_of_eq log.address warp_address at, event, call, unpacked)
  warp_part-Read log (no_message unsigned payload values e at event call unpacked copied) =
      rw (test_of_eq log.address warp_address at, event, call, unpacked, copied)

  then_answer :
      (first second : Lines) (result : Option GoError)
      → (answer first none >> answer second result) ≡ answer (first ++ second) result
  then_answer first second none = refl
  then_answer first second (some e) = refl

  -- The code does with a log what its reading says.
  pub process_log-LogRead :
      (log : Log) {lines : Lines} {result : Option GoError}
      → LogRead log lines result
      → process_log C teleporter_abi message_type teleporter_address log ≡ answer lines result
  unfolding process_log
  process_log-LogRead log (both {first} {second} {result} read_first read_second) =
      ap (λ m. m >> warp_part log) (teleporter_part-Read log read_first)
      ∙ ap (λ m. answer first none >> m) (warp_part-Read log read_second)
      ∙ then_answer first second result
  process_log-LogRead log (undecoded {lines} {e} read) =
      ap (λ m. m >> warp_part log) (teleporter_part-Read log read)
