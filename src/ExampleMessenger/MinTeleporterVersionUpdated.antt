-- ===== src/ExampleMessenger/MinTeleporterVersionUpdated.antt =====
-- abi-bindings/go/CrossChainApplications/ExampleMessenger/ExampleCrossChainMessenger/ExampleCrossChainMessenger.go:
-- the event MinTeleporterVersionUpdated.
use teleporter.Base.{ℤ, Bool, false, List, [], ◌∷◌, Option, none, GoError, Outcome, ok, ◌>>=◌, map}
use teleporter.ExampleMessenger.Types.{ExampleCrossChainMessengerMinTeleporterVersionUpdated}
use teleporter.Bindings.Types.{Log}
use teleporter.Bindings.Abi.{big_int}
use teleporter.Contract.Bound.{BindLib, Unpacker}
use teleporter.Bindings.Abi.{Argument}
use teleporter.Contract.Iterator
use teleporter.Contract.Iterator.{LogIterator, Selected}
use teleporter.Contract.Watch.{Incoming, watch_loop}
use teleporter.ExampleMessenger.Binding.{ExampleCrossChainMessengerFilterer}

-- `event.Raw = log`
unfoldable pub set_raw :
    ExampleCrossChainMessengerMinTeleporterVersionUpdated
    → Log
    → ExampleCrossChainMessengerMinTeleporterVersionUpdated
set_raw event log = record event { raw = log }

module _ (B : BindLib) (U : Unpacker B ExampleCrossChainMessengerMinTeleporterVersionUpdated) where
  abbrev pub MinTeleporterVersionUpdatedIterator : Type 0
  MinTeleporterVersionUpdatedIterator =
      LogIterator B ExampleCrossChainMessengerMinTeleporterVersionUpdated

  unfoldable pub next :
      Selected
      → Option Log
      → MinTeleporterVersionUpdatedIterator
      → MinTeleporterVersionUpdatedIterator × Bool
  next = Iterator.next U set_raw

  unfoldable pub error : MinTeleporterVersionUpdatedIterator → Option GoError
  error = Iterator.error U set_raw

  unfoldable pub close : MinTeleporterVersionUpdatedIterator → B.Subscription × Option GoError
  close = Iterator.close U set_raw

  -- The rules: the alternatives for each indexed input.
  unfoldable pub min_teleporter_version_updated_rules : List ℤ → List ℤ → List (List Argument)
  min_teleporter_version_updated_rules old_min_teleporter_version new_min_teleporter_version =
      map big_int old_min_teleporter_version ∷ map big_int new_min_teleporter_version ∷ []

  unfoldable pub filter_min_teleporter_version_updated :
      ExampleCrossChainMessengerFilterer B
      → B.FilterOpts
      → List ℤ
      → List ℤ
      → Outcome MinTeleporterVersionUpdatedIterator
  filter_min_teleporter_version_updated filterer opts old_min_teleporter_version
        new_min_teleporter_version =
      do
        found ← B.filter_logs filterer.contract opts "MinTeleporterVersionUpdated" (
            min_teleporter_version_updated_rules old_min_teleporter_version
              new_min_teleporter_version)
        ok (record {
          event = none;
          contract = filterer.contract;
          event_name = "MinTeleporterVersionUpdated";
          logs = found.0;
          sub = found.1;
          done = false;
          failure = none;
        })

  -- The subscription is its loop, over what the channels will deliver.
  unfoldable pub watch_min_teleporter_version_updated :
      ExampleCrossChainMessengerFilterer B
      → B.WatchOpts
      → List ℤ
      → List ℤ
      → Outcome (
          B.Subscription
          × (List Incoming
              → List ExampleCrossChainMessengerMinTeleporterVersionUpdated
                × Option (Option GoError)))
  watch_min_teleporter_version_updated filterer opts old_min_teleporter_version
        new_min_teleporter_version =
      do
        found ← B.watch_logs filterer.contract opts "MinTeleporterVersionUpdated" (
            min_teleporter_version_updated_rules old_min_teleporter_version
              new_min_teleporter_version)
        ok (found.1, watch_loop U set_raw filterer.contract "MinTeleporterVersionUpdated")

  unfoldable pub parse_min_teleporter_version_updated :
      ExampleCrossChainMessengerFilterer B
      → Log
      → Outcome ExampleCrossChainMessengerMinTeleporterVersionUpdated
  parse_min_teleporter_version_updated filterer log =
      Iterator.parse U set_raw filterer.contract "MinTeleporterVersionUpdated" log
