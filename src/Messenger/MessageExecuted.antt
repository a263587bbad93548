-- ===== src/Messenger/MessageExecuted.antt =====
-- abi-bindings/go/Teleporter/TeleporterMessenger/TeleporterMessenger.go: the event MessageExecuted.
use teleporter.Base.{ℤ, Bool, false, List, [], ◌∷◌, Option, none, GoError, Outcome, ok, ◌>>=◌, map}
use teleporter.Bindings.Types.{Hash, Log, TeleporterMessengerMessageExecuted}
use teleporter.Bindings.Abi.{identifier, big_int}
use teleporter.Contract.Bound.{BindLib, Unpacker}
use teleporter.Bindings.Abi.{Argument}
use teleporter.Contract.Iterator
use teleporter.Contract.Iterator.{LogIterator, Selected}
use teleporter.Contract.Watch.{Incoming, watch_loop}
use teleporter.Messenger.Binding.{TeleporterMessengerFilterer}

-- `event.Raw = log`
unfoldable pub set_raw :
    TeleporterMessengerMessageExecuted → Log → TeleporterMessengerMessageExecuted
set_raw event log = record event { raw = log }

module _ (B : BindLib) (U : Unpacker B TeleporterMessengerMessageExecuted) where
  abbrev pub MessageExecutedIterator : Type 0
  MessageExecutedIterator = LogIterator B TeleporterMessengerMessageExecuted

  unfoldable pub next :
      Selected → Option Log → MessageExecutedIterator → MessageExecutedIterator × Bool
  next = Iterator.next U set_raw

  unfoldable pub error : MessageExecutedIterator → Option GoError
  error = Iterator.error U set_raw

  unfoldable pub close : MessageExecutedIterator → B.Subscription × Option GoError
  close = Iterator.close U set_raw

  -- The rules: the alternatives for each indexed input.
  unfoldable pub message_executed_rules : List Hash → List ℤ → List (List Argument)
  message_executed_rules origin_blockchain_id message_id =
      map identifier origin_blockchain_id ∷ map big_int message_id ∷ []

  unfoldable pub filter_message_executed :
      TeleporterMessengerFilterer B
      → B.FilterOpts
      → List Hash
      → List ℤ
      → Outcome MessageExecutedIterator
  filter_message_executed filterer opts origin_blockchain_id message_id = do
    found ←
        B.filter_logs filterer.contract opts "MessageExecuted"
          (message_executed_rules origin_blockchain_id message_id)
    ok (record {
      event = none;
      contract = filterer.contract;
      event_name = "MessageExecuted";
      logs = found.0;
      sub = found.1;
      done = false;
      failure = none;
    })

  -- The subscription is its loop, over what the channels will deliver.
  unfoldable pub watch_message_executed :
      TeleporterMessengerFilterer B
      → B.WatchOpts
      → List Hash
      → List ℤ
      → Outcome (
          B.Subscription
          × (List Incoming → List TeleporterMessengerMessageExecuted × Option (Option GoError)))
  watch_message_executed filterer opts origin_blockchain_id message_id = do
    found ←
        B.watch_logs filterer.contract opts "MessageExecuted"
          (message_executed_rules origin_blockchain_id message_id)
    ok (found.1, watch_loop U set_raw filterer.contract "MessageExecuted")

  unfoldable pub parse_message_executed :
      TeleporterMessengerFilterer B → Log → Outcome TeleporterMessengerMessageExecuted
  parse_message_executed filterer log =
      Iterator.parse U set_raw filterer.contract "MessageExecuted" log
