-- ===== src/ExampleMessenger/ReceiveMessage.antt =====
-- abi-bindings/go/CrossChainApplications/ExampleMessenger/ExampleCrossChainMessenger/ExampleCrossChainMessenger.go:
-- the event ReceiveMessage.
use teleporter.Base.{Bool, false, List, [], ◌∷◌, Option, none, GoError, Outcome, ok, ◌>>=◌, map}
use teleporter.ExampleMessenger.Types.{ExampleCrossChainMessengerReceiveMessage}
use teleporter.Bindings.Types.{Address, Hash, Log}
use teleporter.Bindings.Abi.{identifier, address}
use teleporter.Contract.Bound.{BindLib, Unpacker}
use teleporter.Bindings.Abi.{Argument}
use teleporter.Contract.Iterator
use teleporter.Contract.Iterator.{LogIterator, Selected}
use teleporter.Contract.Watch.{Incoming, watch_loop}
use teleporter.ExampleMessenger.Binding.{ExampleCrossChainMessengerFilterer}

-- `event.Raw = log`
unfoldable pub set_raw :
    ExampleCrossChainMessengerReceiveMessage → Log → ExampleCrossChainMessengerReceiveMessage
set_raw event log = record event { raw = log }

module _ (B : BindLib) (U : Unpacker B ExampleCrossChainMessengerReceiveMessage) where
  abbrev pub ReceiveMessageIterator : Type 0
  ReceiveMessageIterator = LogIterator B ExampleCrossChainMessengerReceiveMessage

  unfoldable pub next :
      Selected → Option Log → ReceiveMessageIterator → ReceiveMessageIterator × Bool
  next = Iterator.next U set_raw

  unfoldable pub error : ReceiveMessageIterator → Option GoError
  error = Iterator.error U set_raw

  unfoldable pub close : ReceiveMessageIterator → B.Subscription × Option GoError
  close = Iterator.close U set_raw

  -- The rules: the alternatives for each indexed input.
  unfoldable pub receive_message_rules : List Hash → List Address → List (List Argument)
  receive_message_rules origin_blockchain_id origin_sender_address =
      map identifier origin_blockchain_id ∷ map address origin_sender_address ∷ []

  unfoldable pub filter_receive_message :
      ExampleCrossChainMessengerFilterer B
      → B.FilterOpts
      → List Hash
      → List Address
      → Outcome ReceiveMessageIterator
  filter_receive_message filterer opts origin_blockchain_id origin_sender_address = do
    found ←
        B.filter_logs filterer.contract opts "ReceiveMessage"
          (receive_message_rules origin_blockchain_id origin_sender_address)
    ok (record {
      event = none;
      contract = filterer.contract;
      event_name = "ReceiveMessage";
      logs = found.0;
      sub = found.1;
      done = false;
      failure = none;
    })

  -- The subscription is its loop, over what the channels will deliver.
  unfoldable pub watch_receive_message :
      ExampleCrossChainMessengerFilterer B
      → B.WatchOpts
      → List Hash
      → List Address
      → Outcome (
          B.Subscription
          × (List Incoming
              → List ExampleCrossChainMessengerReceiveMessage × Option (Option GoError)))
  watch_receive_message filterer opts origin_blockchain_id origin_sender_address = do
    found ←
        B.watch_logs filterer.contract opts "ReceiveMessage"
          (receive_message_rules origin_blockchain_id origin_sender_address)
    ok (found.1, watch_loop U set_raw filterer.contract "ReceiveMessage")

  unfoldable pub parse_receive_message :
      ExampleCrossChainMessengerFilterer B → Log → Outcome ExampleCrossChainMessengerReceiveMessage
  parse_receive_message filterer log =
      Iterator.parse U set_raw filterer.contract "ReceiveMessage" log
