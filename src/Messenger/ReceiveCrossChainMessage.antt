-- ===== src/Messenger/ReceiveCrossChainMessage.antt =====
-- abi-bindings/go/Teleporter/TeleporterMessenger/TeleporterMessenger.go: the event ReceiveCrossChainMessage.
use teleporter.Base.{ℤ, Bool, false, List, [], ◌∷◌, Option, none, GoError, Outcome, ok, ◌>>=◌, map}
use teleporter.Bindings.Types.{Address, Hash, Log, TeleporterMessengerReceiveCrossChainMessage}
use teleporter.Bindings.Abi.{identifier, big_int, address}
use teleporter.Contract.Bound.{BindLib, Unpacker}
use teleporter.Bindings.Abi.{Argument}
use teleporter.Contract.Iterator
use teleporter.Contract.Iterator.{LogIterator, Selected}
use teleporter.Contract.Watch.{Incoming, watch_loop}
use teleporter.Messenger.Binding.{TeleporterMessengerFilterer}

-- `event.Raw = log`
unfoldable pub set_raw :
    TeleporterMessengerReceiveCrossChainMessage → Log → TeleporterMessengerReceiveCrossChainMessage
set_raw event log = record event { raw = log }

module _ (B : BindLib) (U : Unpacker B TeleporterMessengerReceiveCrossChainMessage) where
  abbrev pub ReceiveCrossChainMessageIterator : Type 0
  ReceiveCrossChainMessageIterator = LogIterator B TeleporterMessengerReceiveCrossChainMessage

  unfoldable pub next :
      Selected
      → Option Log
      → ReceiveCrossChainMessageIterator
      → ReceiveCrossChainMessageIterator × Bool
  next = Iterator.next U set_raw

  unfoldable pub error : ReceiveCrossChainMessageIterator → Option GoError
  error = Iterator.error U set_raw

  unfoldable pub close : ReceiveCrossChainMessageIterator → B.Subscription × Option GoError
  close = Iterator.close U set_raw

  -- The rules: the alternatives for each indexed input.
  unfoldable pub receive_cross_chain_message_rules :
      List Hash → List ℤ → List Address → List (List Argument)
  receive_cross_chain_message_rules origin_blockchain_id message_id deliverer =
      map identifier origin_blockchain_id ∷ map big_int message_id ∷ map address deliverer ∷ []

  unfoldable pub filter_receive_cross_chain_message :
      TeleporterMessengerFilterer B
      → B.FilterOpts
      → List Hash
      → List ℤ
      → List Address
      → Outcome ReceiveCrossChainMessageIterator
  filter_receive_cross_chain_message filterer opts origin_blockchain_id message_id deliverer = do
    found ←
        B.filter_logs filterer.contract opts "ReceiveCrossChainMessage"
          (receive_cross_chain_message_rules origin_blockchain_id message_id deliverer)
    ok (record {
      event = none;
      contract = filterer.contract;
      event_name = "ReceiveCrossChainMessage";
      logs = found.0;
      sub = found.1;
      done = false;
      failure = none;
    })

  -- The subscription is its loop, over what the channels will deliver.
  unfoldable pub watch_receive_cross_chain_message :
      TeleporterMessengerFilterer B
      → B.WatchOpts
      → List Hash
      → List ℤ
      → List Address
      → Outcome (
          B.Subscription
          × (List Incoming
              → List TeleporterMessengerReceiveCrossChainMessage × Option (Option GoError)))
  watch_receive_cross_chain_message filterer opts origin_blockchain_id message_id deliverer = do
    found ←
        B.watch_logs filterer.contract opts "ReceiveCrossChainMessage"
          (receive_cross_chain_message_rules origin_blockchain_id message_id deliverer)
    ok (found.1, watch_loop U set_raw filterer.contract "ReceiveCrossChainMessage")

  unfoldable pub parse_receive_cross_chain_message :
      TeleporterMessengerFilterer B → Log → Outcome TeleporterMessengerReceiveCrossChainMessage
  parse_receive_cross_chain_message filterer log =
      Iterator.parse U set_raw filterer.contract "ReceiveCrossChainMessage" log
