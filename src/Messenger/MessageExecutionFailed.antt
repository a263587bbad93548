-- ===== src/Messenger/MessageExecutionFailed.antt =====
-- abi-bindings/go/Teleporter/TeleporterMessenger/TeleporterMessenger.go: the event MessageExecutionFailed.
use teleporter.Base.{ℤ, Bool, false, List, [], ◌∷◌, Option, none, GoError, Outcome, ok, ◌>>=◌, map}
use teleporter.Bindings.Types.{Hash, Log, TeleporterMessengerMessageExecutionFailed}
use teleporter.Bindings.Abi.{identifier, big_int}
use teleporter.Contract.Bound.{BindLib, Unpacker}
use teleporter.Bindings.Abi.{Argument}
use teleporter.Contract.Iterator
use teleporter.Contract.Iterator.{LogIterator, Selected}
use teleporter.Contract.Watch.{Incoming, watch_loop}
use teleporter.Messenger.Binding.{TeleporterMessengerFilterer}

-- `event.Raw = log`
unfoldable pub set_raw :
    TeleporterMessengerMessageExecutionFailed → Log → TeleporterMessengerMessageExecutionFailed
set_raw event log = record event { raw = log }

module _ (B : BindLib) (U : Unpacker B TeleporterMessengerMessageExecutionFailed) where
  abbrev pub MessageExecutionFailedIterator : Type 0
  MessageExecutionFailedIterator = LogIterator B TeleporterMessengerMessageExecutionFailed

  unfoldable pub next :
      Selected → Option Log → MessageExecutionFailedIterator → MessageExecutionFailedIterator × Bool
  next = Iterator.next U set_raw

  unfoldable pub error : MessageExecutionFailedIterator → Option GoError
  error = Iterator.error U set_raw

  unfoldable pub close : MessageExecutionFailedIterator → B.Subscription × Option GoError
  close = Iterator.close U set_raw

  -- The rules: the alternatives for each indexed input.
  unfoldable pub message_execution_failed_rules : List Hash → List ℤ → List (List Argument)
  message_execution_failed_rules origin_blockchain_id message_id =
      map identifier origin_blockchain_id ∷ map big_int message_id ∷ []

  unfoldable pub filter_message_execution_failed :
      TeleporterMessengerFilterer B
      → B.FilterOpts
      → List Hash
      → List ℤ
      → Outcome MessageExecutionFailedIterator
  filter_message_execution_failed filterer opts origin_blockchain_id message_id = do
    found ←
        B.filter_logs filterer.contract opts "MessageExecutionFailed"
          (message_execution_failed_rules origin_blockchain_id message_id)
    ok (record {
      event = none;
      contract = filterer.contract;
      event_name = "MessageExecutionFailed";
      logs = found.0;
      sub = found.1;
      done = false;
      failure = none;
    })

  -- The subscription is its loop, over what the channels will deliver.
  unfoldable pub watch_message_execution_failed :
      TeleporterMessengerFilterer B
      → B.WatchOpts
      → List Hash
      → List ℤ
      → Outcome (
          B.Subscription
          × (List Incoming
              → List TeleporterMessengerMessageExecutionFailed × Option (Option GoError)))
  watch_message_execution_failed filterer opts origin_blockchain_id message_id = do
    found ←
        B.watch_logs filterer.contract opts "MessageExecutionFailed"
          (message_execution_failed_rules origin_blockchain_id message_id)
    ok (found.1, watch_loop U set_raw filterer.contract "MessageExecutionFailed")

  unfoldable pub parse_message_execution_failed :
      TeleporterMessengerFilterer B → Log → Outcome TeleporterMessengerMessageExecutionFailed
  parse_message_execution_failed filterer log =
      Iterator.parse U set_raw filterer.contract "MessageExecutionFailed" log
