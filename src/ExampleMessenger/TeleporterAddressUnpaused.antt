-- ===== src/ExampleMessenger/TeleporterAddressUnpaused.antt =====
-- abi-bindings/go/CrossChainApplications/ExampleMessenger/ExampleCrossChainMessenger/ExampleCrossChainMessenger.go:
-- the event TeleporterAddressUnpaused.
use teleporter.Base.{Bool, false, List, [], ◌∷◌, Option, none, GoError, Outcome, ok, ◌>>=◌, map}
use teleporter.ExampleMessenger.Types.{ExampleCrossChainMessengerTeleporterAddressUnpaused}
use teleporter.Bindings.Types.{Address, Log}
use teleporter.Bindings.Abi.{address}
use teleporter.Contract.Bound.{BindLib, Unpacker}
use teleporter.Bindings.Abi.{Argument}
use teleporter.Contract.Iterator
use teleporter.Contract.Iterator.{LogIterator, Selected}
use teleporter.Contract.Watch.{Incoming, watch_loop}
use teleporter.ExampleMessenger.Binding.{ExampleCrossChainMessengerFilterer}

-- `event.Raw = log`
unfoldable pub set_raw :
    ExampleCrossChainMessengerTeleporterAddressUnpaused
    → Log
    → ExampleCrossChainMessengerTeleporterAddressUnpaused
set_raw event log = record event { raw = log }

module _ (B : BindLib) (U : Unpacker B ExampleCrossChainMessengerTeleporterAddressUnpaused) where
  abbrev pub TeleporterAddressUnpausedIterator : Type 0
  TeleporterAddressUnpausedIterator =
      LogIterator B ExampleCrossChainMessengerTeleporterAddressUnpaused

  unfoldable pub next :
      Selected
      → Option Log
      → TeleporterAddressUnpausedIterator
      → TeleporterAddressUnpausedIterator × Bool
  next = Iterator.next U set_raw

  unfoldable pub error : TeleporterAddressUnpausedIterator → Option GoError
  error = Iterator.error U set_raw

  unfoldable pub close : TeleporterAddressUnpausedIterator → B.Subscription × Option GoError
  close = Iterator.close U set_raw

  -- The rules: the alternatives for each indexed input.
  unfoldable pub teleporter_address_unpaused_rules : List Address → List (List Argument)
  teleporter_address_unpaused_rules teleporter_address = map address teleporter_address ∷ []

  unfoldable pub filter_teleporter_address_unpaused :
      ExampleCrossChainMessengerFilterer B
      → B.FilterOpts
      → List Address
      → Outcome TeleporterAddressUnpausedIterator
  filter_teleporter_address_unpaused filterer opts teleporter_address = do
    found ←
        B.filter_logs filterer.contract opts "TeleporterAddressUnpaused"
          (teleporter_address_unpaused_rules teleporter_address)
    ok (record {
      event = none;
      contract = filterer.contract;
      event_name = "TeleporterAddressUnpaused";
      logs = found.0;
      sub = found.1;
      done = false;
      failure = none;
    })

  -- The subscription is its loop, over what the channels will deliver.
  unfoldable pub watch_teleporter_address_unpaused :
      ExampleCrossChainMessengerFilterer B
      → B.WatchOpts
      → List Address
      → Outcome (
          B.Subscription
          × (List Incoming
              → List ExampleCrossChainMessengerTeleporterAddressUnpaused × Option (Option GoError)))
  watch_teleporter_address_unpaused filterer opts teleporter_address = do
    found ←
        B.watch_logs filterer.contract opts "TeleporterAddressUnpaused"
          (teleporter_address_unpaused_rules teleporter_address)
    ok (found.1, watch_loop U set_raw filterer.contract "TeleporterAddressUnpaused")

  unfoldable pub parse_teleporter_address_unpaused :
      ExampleCrossChainMessengerFilterer B
      → Log
      → Outcome ExampleCrossChainMessengerTeleporterAddressUnpaused
  parse_teleporter_address_unpaused filterer log =
      Iterator.parse U set_raw filterer.contract "TeleporterAddressUnpaused" log
