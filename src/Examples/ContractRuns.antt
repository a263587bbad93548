-- ===== src/Examples/ContractRuns.antt =====
-- The generated bindings over small implementations of the package bind.
use teleporter.Base.{
  ℕ, zero, suc, ◌≡◌, refl, pos, Bool, true, false, List, [], ◌∷◌, ◌++◌, map, String, Option, none,
  some, new, GoError, Outcome, ok, fail, ◌>>=◌, arith,
}
use teleporter.Bindings.Types.{
  Bytes, Address, Hash, Log, TeleporterMessageInput, TeleporterMessage,
  TeleporterMessengerSendCrossChainMessage,
}
use teleporter.Bindings.Abi.{AbiLib, Argument, identifier, big_int}
use teleporter.Bindings.Packing.{
  pack_send_cross_chain_message, pack_retry_message_execution, pack_receive_cross_chain_message,
  pack_message_received, unpack_message_received_result,
}
use teleporter.Contract.Bound.{BindLib, Unpacker, MetaData, out_at}
use teleporter.Contract.Iterator.{LogIterator, error, next, select, receive}
use teleporter.Contract.Iterator.Feed.{
  Feed, returned, started, Step, sends, takes_log, Run, here, works, yields,
}
use teleporter.Contract.Iterator.Laws.{parse_all}
use teleporter.Contract.Iterator.Delivery.{iterator_delivers}
use teleporter.Contract.Iterator.Termination.{iterator_ends}
use teleporter.Contract.Watch.{arrived, taken, sub_err, watch_loop}
use teleporter.Contract.Watch.Laws.{followed_by, watch_delivers}
use teleporter.Messenger.Binding.{new_teleporter_messenger}
use teleporter.Messenger.Caller.{message_received}
use teleporter.Messenger.Transactor.{
  send_cross_chain_message, retry_message_execution, receive_cross_chain_message,
}
use teleporter.Messenger.Laws.{binding_sends_packed, binding_views_packed}
use teleporter.Messenger.Delivery.{filter_watch_agree}
use teleporter.Messenger.SendCrossChainMessage.{
  set_raw, filter_send_cross_chain_message, watch_send_cross_chain_message,
}
use teleporter.Examples.Libraries.{toy_abi, toy_pack, sample, teleporter_log, other_log}

abbrev pack_call : String → List Argument → Outcome Bytes
pack_call method (identifier id ∷ big_int (pos n) ∷ []) = ok (id ∷ n ∷ [])
pack_call method params = toy_pack method params

-- An answer is one byte: every message but the first is received.
abbrev answer : Bytes → Outcome Bytes
answer (id ∷ n ∷ []) = ok (n ∷ [])
answer call = fail (new "execution reverted")

abbrev decode : String → Bytes → Outcome (List Bool)
decode method (zero ∷ []) = ok (false ∷ [])
decode method (suc n ∷ []) = ok (true ∷ [])
decode method result = fail (new "abi: attempting to unmarshal")

-- A transaction is the address that it goes to and what it carries.
abbrev submit : Address → Option (Unit {0}) → Unit {0} → Bytes → Outcome (Address × Bytes)
submit addr backend opts call = ok (addr, call)

abbrev view : Address → Option (Unit {0}) → Unit {0} → Bytes → Outcome Bytes
view addr backend opts call = answer call

abbrev toy_bind : BindLib
toy_bind = record {
  Backend = Unit {0};
  ContractAbi = Unit {0};
  BoundContract = Address;
  CallOpts = Unit {0};
  TransactOpts = Unit {0};
  FilterOpts = Unit {0};
  WatchOpts = Unit {0};
  SignedTx = Address × Bytes;
  LogChannel = Unit {0};
  Subscription = Unit {0};
  Any = Bool;
  new_bound_contract = λ addr _ _ _ _. addr;
  deploy_contract = λ _ _ _ _ _. fail (new "unused");
  call = λ addr opts method params.
      pack_call method params >>= view addr (some tt) opts >>= decode method;
  transact = λ addr opts method params. pack_call method params >>= submit addr (some tt) opts;
  transfer = λ _ _. fail (new "unused");
  filter_logs = λ _ _ _ _. ok (tt, tt);
  watch_logs = λ _ _ _ _. ok (tt, tt);
  to_address = λ _. fail (new "unused");
  to_big_int = λ _. fail (new "unused");
  to_hash = λ _. fail (new "unused");
  to_bool = λ b. ok b;
  to_receipt = λ _. fail (new "unused");
  to_fee_info = λ _. fail (new "unused");
  to_text = λ _. fail (new "unused");
}

abbrev call_abi : AbiLib
call_abi = record toy_abi {
  pack = λ _ method params. pack_call method params;
  unpack_bool = λ _ method result. decode method result >>= λ out. out_at out 0 >>= λ b. ok b;
}

abbrev toy_meta : MetaData toy_bind
toy_meta = record { get_abi = ok (some tt); bin = [] }

binding_sends_packed_example :
    ((input : TeleporterMessageInput)
      → (new_teleporter_messenger toy_bind toy_meta 0x70 tt >>= λ m.
          send_cross_chain_message toy_bind m.transactor tt input)
        ≡ (pack_send_cross_chain_message call_abi input >>= submit 0x70 (some tt) tt))
    × ((id : Hash) (message : TeleporterMessage)
        → (new_teleporter_messenger toy_bind toy_meta 0x70 tt >>= λ m.
            retry_message_execution toy_bind m.transactor tt id message)
          ≡ (pack_retry_message_execution call_abi id message >>= submit 0x70 (some tt) tt))
    × ((index : ℕ) (reward : Address)
        → (new_teleporter_messenger toy_bind toy_meta 0x70 tt >>= λ m.
            receive_cross_chain_message toy_bind m.transactor tt index reward)
          ≡ (pack_receive_cross_chain_message call_abi index reward >>= submit 0x70 (some tt) tt))
binding_sends_packed_example =
    binding_sends_packed call_abi toy_bind toy_meta tt tt refl refl submit
      (λ addr caller transactor filterer opts method params. refl) 0x70 tt tt

binding_views_packed_example :
    (new_teleporter_messenger toy_bind toy_meta 0x70 tt >>= λ m.
    message_received toy_bind m.caller tt 7 (pos 1))
    ≡ (pack_message_received call_abi 7 (pos 1)
        >>= view 0x70 (some tt) tt
        >>= unpack_message_received_result call_abi)
binding_views_packed_example =
    binding_views_packed call_abi toy_bind toy_meta tt tt refl refl view decode
      (λ addr caller transactor filterer opts method params. refl) (λ result. refl) 0x70 tt tt 7
      (pos 1)

abbrev no_event : TeleporterMessengerSendCrossChainMessage
no_event = record {
  destination_blockchain_id = 0;
  message_id = pos 0;
  message = sample;
  fee_info = record { fee_token_address = 0; amount = pos 0 };
  raw = other_log;
}

-- The number of the message is the second topic.
abbrev unpack_send :
    Address
    → TeleporterMessengerSendCrossChainMessage
    → String
    → Log
    → TeleporterMessengerSendCrossChainMessage × Option GoError
unpack_send contract e name log = fields log.topics
  where
    fields : List Hash → TeleporterMessengerSendCrossChainMessage × Option GoError
    fields (id ∷ n ∷ topics) = (record e { message_id = pos n }, none)
    fields topics = (e, some (new "event signature mismatch"))

abbrev toy_send : Unpacker toy_bind TeleporterMessengerSendCrossChainMessage
toy_send = record { new_event = no_event; unpack_log = unpack_send }

abbrev seen : TeleporterMessengerSendCrossChainMessage
seen = record no_event { message_id = pos 2; raw = teleporter_log }

abbrev it : LogIterator toy_bind TeleporterMessengerSendCrossChainMessage
it = record {
  event = none;
  contract = 0x70;
  event_name = "SendCrossChainMessage";
  logs = tt;
  sub = tt;
  done = false;
  failure = none;
}

-- The goroutine sends a log that parses and one that does not; then the caller reads twice.
abbrev sent_one : Feed toy_bind TeleporterMessengerSendCrossChainMessage
sent_one = record {
  it = it;
  buffered = teleporter_log ∷ [];
  unsent = other_log ∷ [];
  ended = false;
}

abbrev sent_both : Feed toy_bind TeleporterMessengerSendCrossChainMessage
sent_both = record sent_one { buffered = teleporter_log ∷ other_log ∷ []; unsent = [] }

abbrev read_one : Feed toy_bind TeleporterMessengerSendCrossChainMessage
read_one = record sent_both { it = record it { event = some seen }; buffered = other_log ∷ [] }

abbrev read_both : Feed toy_bind TeleporterMessengerSendCrossChainMessage
read_both = record read_one {
  it = record it { event = some no_event; failure = some (new "event signature mismatch") };
  buffered = [];
}

abbrev logs : List Log
logs = teleporter_log ∷ other_log ∷ []

run : Run toy_send set_raw 128 (started it logs) (seen ∷ []) read_one
unfolding next select receive set_raw
run =
    yields {t = sent_both} seen (seen ∷ [])
      (works {t = sent_one}
        (works {t = started it logs} here
          (sends teleporter_log (other_log ∷ []) refl (omega arith) refl refl))
        (sends other_log [] refl (omega arith) refl refl))
      (takes_log teleporter_log (other_log ∷ []) refl refl refl refl refl) refl refl

last : Step toy_send set_raw 128 read_one (returned false) read_both
unfolding next select receive set_raw
last = takes_log other_log [] refl refl refl refl refl

iterator_delivers_example :
    (seen ∷ [], error toy_send set_raw read_both.it)
    ≡ parse_all toy_send set_raw 0x70 "SendCrossChainMessage" logs
iterator_delivers_example =
    iterator_delivers toy_send set_raw 128 it logs (seen ∷ []) read_one read_both refl refl run last

iterator_ends_example :
    (events : List TeleporterMessengerSendCrossChainMessage) × (t u : Feed toy_bind
      TeleporterMessengerSendCrossChainMessage)
    × Run toy_send set_raw 128 (started it logs) events t
    × Step toy_send set_raw 128 t (returned false) u
iterator_ends_example = iterator_ends toy_send set_raw 128 (omega arith) (started it logs)

watch_delivers_example :
    watch_loop toy_send set_raw 0x70 "SendCrossChainMessage"
      (map (λ log. arrived log taken) logs ++ (sub_err none ∷ []))
    ≡ followed_by toy_send set_raw 0x70 "SendCrossChainMessage"
        (parse_all toy_send set_raw 0x70 "SendCrossChainMessage" logs)
        (watch_loop toy_send set_raw 0x70 "SendCrossChainMessage" (sub_err none ∷ []))
watch_delivers_example =
    watch_delivers toy_send set_raw 0x70 "SendCrossChainMessage" logs (sub_err none ∷ [])

filter_watch_agree_example :
    watch_loop toy_send set_raw 0x70 "SendCrossChainMessage" (map (λ log. arrived log taken) logs)
    ≡ (seen ∷ [], some (some (new "event signature mismatch")))
unfolding filter_send_cross_chain_message watch_send_cross_chain_message error
    teleporter.Messenger.SendCrossChainMessage.error
filter_watch_agree_example =
    filter_watch_agree toy_bind toy_send (record { contract = 0x70 }) [] [] 128 tt tt it tt
      (watch_loop toy_send set_raw 0x70 "SendCrossChainMessage") logs (seen ∷ []) read_one read_both
      refl refl run last
