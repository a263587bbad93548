-- ===== src/Messenger/SendCrossChainMessage.antt =====
-- abi-bindings/go/Teleporter/TeleporterMessenger/TeleporterMessenger.go: the event SendCrossChainMessage.
use teleporter.Base.{ℤ, Bool, false, List, [], ◌∷◌, Option, none, GoError, Outcome, ok, ◌>>=◌, map}
use teleporter.Bindings.Types.{Hash, Log, TeleporterMessengerSendCrossChainMessage}
use teleporter.Bindings.Abi.{identifier, big_int}
use teleporter.Contract.Bound.{BindLib, Unpacker}
use teleporter.Bindings.Abi.{Argument}
use teleporter.Contract.Iterator
use teleporter.Contract.Iterator.{LogIterator, Selected}
use teleporter.Contract.Watch.{Incoming, watch_loop}
use teleporter.Messenger.Binding.{TeleporterMessengerFilterer}

-- `event.Raw = log`
unfoldable pub set_raw :
    TeleporterMessengerSendCrossChainMessage → Log → TeleporterMessengerSendCrossChainMessage
set_raw event log = record event { raw = log }

module _ (B : BindLib) (U : Unpacker B TeleporterMessengerSendCrossChainMessage) where
  abbrev pub SendCrossChainMessageIterator : Type 0
  SendCrossChainMessageIterator = LogIterator B TeleporterMessengerSendCrossChainMessage

  unfoldable pub next :
      Selected → Option Log → SendCrossChainMessageIterator → SendCrossChainMessageIterator × Bool
  next = Iterator.next U set_raw

  unfoldable pub error : SendCrossChainMessageIterator → Option GoError
  error = Iterator.error U set_raw

  unfoldable pub close : SendCrossChainMessageIterator → B.Subscription × Option GoError
  close = Iterator.close U set_raw

  -- The rules: the alternatives for each indexed input.
  unfoldable pub send_cross_chain_message_rules : List Hash → List ℤ → List (List Argument)
  send_cross_chain_message_rules destination_blockchain_id message_id =
      map identifier destination_blockchain_id ∷ map big_int message_id ∷ []

  unfoldable pub filter_send_cross_chain_message :
      TeleporterMessengerFilterer B
      → B.FilterOpts
      → List Hash
      → List ℤ
      → Outcome SendCrossChainMessageIterator
  filter_send_cross_chain_message filterer opts destination_blockchain_id message_id = do
    found ←
        B.filter_logs filterer.contract opts "SendCrossChainMessage"
          (send_cross_chain_message_rules destination_blockchain_id message_id)
    ok (record {
      event = none;
      contract = filterer.contract;
      event_name = "SendCrossChainMessage";
      logs = found.0;
      sub = found.1;
      done = false;
      failure = none;
    })

  -- The subscription is its loop, over what the channels will deliver.
  unfoldable pub watch_send_cross_chain_message :
      TeleporterMessengerFilterer B
      → B.WatchOpts
      → List Hash
      → List ℤ
      → Outcome (
          B.Subscription
          × (List Incoming
              → List TeleporterMessengerSendCrossChainMessage × Option (Option GoError)))
  watch_send_cross_chain_message filterer opts destination_blockchain_id message_id = do
    found ←
        B.watch_logs filterer.contract opts "SendCrossChainMessage"
          (send_cross_chain_message_rules destination_blockchain_id message_id)
    ok (found.1, watch_loop U set_raw filterer.contract "SendCrossChainMessage")

  unfoldable pub parse_send_cross_chain_message :
      TeleporterMessengerFilterer B → Log → Outcome TeleporterMessengerSendCrossChainMessage
  parse_send_cross_chain_message filterer log =
      Iterator.parse U set_raw filterer.contract "SendCrossChainMessage" log
