-- ===== src/ExampleMessenger/SendMessage.antt =====
-- abi-bindings/go/CrossChainApplications/ExampleMessenger/ExampleCrossChainMessenger/ExampleCrossChainMessenger.go:
-- the event SendMessage.
use teleporter.Base.{Bool, false, List, [], ◌∷◌, Option, none, GoError, Outcome, ok, ◌>>=◌, map}
use teleporter.ExampleMessenger.Types.{ExampleCrossChainMessengerSendMessage}
use teleporter.Bindings.Types.{Address, Hash, Log}
use teleporter.Bindings.Abi.{identifier, address}
use teleporter.Contract.Bound.{BindLib, Unpacker}
use teleporter.Bindings.Abi.{Argument}
use teleporter.Contract.Iterator
use teleporter.Contract.Iterator.{LogIterator, Selected}
use teleporter.Contract.Watch.{Incoming, watch_loop}
use teleporter.ExampleMessenger.Binding.{ExampleCrossChainMessengerFilterer}

-- `event.Raw = log`
unfoldable pub set_raw :
    ExampleCrossChainMessengerSendMessage → Log → ExampleCrossChainMessengerSendMessage
set_raw event log = record event { raw = log }

module _ (B : BindLib) (U : Unpacker B ExampleCrossChainMessengerSendMessage) where
  abbrev pub SendMessageIterator : Type 0
  SendMessageIterator = LogIterator B ExampleCrossChainMessengerSendMessage

  unfoldable pub next : Selected → Option Log → SendMessageIterator → SendMessageIterator × Bool
  next = Iterator.next U set_raw

  unfoldable pub error : SendMessageIterator → Option GoError
  error = Iterator.error U set_raw

  unfoldable pub close : SendMessageIterator → B.Subscription × Option GoError
  close = Iterator.close U set_raw

  -- The rules: the alternatives for each indexed input.
  unfoldable pub send_message_rules : List Hash → List Address → List (List Argument)
  send_message_rules destination_blockchain_id destination_address =
      map identifier destination_blockchain_id ∷ map address destination_address ∷ []

  unfoldable pub filter_send_message :
      ExampleCrossChainMessengerFilterer B
      → B.FilterOpts
      → List Hash
      → List Address
      → Outcome SendMessageIterator
  filter_send_message filterer opts destination_blockchain_id destination_address = do
    found ←
        B.filter_logs filterer.contract opts "SendMessage"
          (send_message_rules destination_blockchain_id destination_address)
    ok (record {
      event = none;
      contract = filterer.contract;
      event_name = "SendMessage";
      logs = found.0;
      sub = found.1;
      done = false;
      failure = none;
    })

  -- The subscription is its loop, over what the channels will deliver.
  unfoldable pub watch_send_message :
      ExampleCrossChainMessengerFilterer B
      → B.WatchOpts
      → List Hash
      → List Address
      → Outcome (
          B.Subscription
          × (List Incoming → List ExampleCrossChainMessengerSendMessage × Option (Option GoError)))
  watch_send_message filterer opts destination_blockchain_id destination_address = do
    found ←
        B.watch_logs filterer.contract opts "SendMessage"
          (send_message_rules destination_blockchain_id destination_address)
    ok (found.1, watch_loop U set_raw filterer.contract "SendMessage")

  unfoldable pub parse_send_message :
      ExampleCrossChainMessengerFilterer B → Log → Outcome ExampleCrossChainMessengerSendMessage
  parse_send_message filterer log = Iterator.parse U set_raw filterer.contract "SendMessage" log
