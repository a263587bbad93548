-- ===== src/Registry/LatestVersionUpdated.antt =====
-- abi-bindings/go/Teleporter/upgrades/TeleporterRegistry/TeleporterRegistry.go: the event LatestVersionUpdated.
use teleporter.Base.{ℤ, Bool, false, List, [], ◌∷◌, Option, none, GoError, Outcome, ok, ◌>>=◌, map}
use teleporter.Bindings.Types.{Log, TeleporterRegistryLatestVersionUpdated}
use teleporter.Bindings.Abi.{big_int}
use teleporter.Contract.Bound.{BindLib, Unpacker}
use teleporter.Bindings.Abi.{Argument}
use teleporter.Contract.Iterator
use teleporter.Contract.Iterator.{LogIterator, Selected}
use teleporter.Contract.Watch.{Incoming, watch_loop}
use teleporter.Registry.Binding.{TeleporterRegistryFilterer}

-- `event.Raw = log`
unfoldable pub set_raw :
    TeleporterRegistryLatestVersionUpdated → Log → TeleporterRegistryLatestVersionUpdated
set_raw event log = record event { raw = log }

module _ (B : BindLib) (U : Unpacker B TeleporterRegistryLatestVersionUpdated) where
  abbrev pub LatestVersionUpdatedIterator : Type 0
  LatestVersionUpdatedIterator = LogIterator B TeleporterRegistryLatestVersionUpdated

  unfoldable pub next :
      Selected → Option Log → LatestVersionUpdatedIterator → LatestVersionUpdatedIterator × Bool
  next = Iterator.next U set_raw

  unfoldable pub error : LatestVersionUpdatedIterator → Option GoError
  error = Iterator.error U set_raw

  unfoldable pub close : LatestVersionUpdatedIterator → B.Subscription × Option GoError
  close = Iterator.close U set_raw

  -- The rules: the alternatives for each indexed input.
  unfoldable pub latest_version_updated_rules : List ℤ → List ℤ → List (List Argument)
  latest_version_updated_rules old_version new_version =
      map big_int old_version ∷ map big_int new_version ∷ []

  unfoldable pub filter_latest_version_updated :
      TeleporterRegistryFilterer B
      → B.FilterOpts
      → List ℤ
      → List ℤ
      → Outcome LatestVersionUpdatedIterator
  filter_latest_version_updated filterer opts old_version new_version = do
    found ←
        B.filter_logs filterer.contract opts "LatestVersionUpdated"
          (latest_version_updated_rules old_version new_version)
    ok (record {
      event = none;
      contract = filterer.contract;
      event_name = "LatestVersionUpdated";
      logs = found.0;
      sub = found.1;
      done = false;
      failure = none;
    })

  -- The subscription is its loop, over what the channels will deliver.
  unfoldable pub watch_latest_version_updated :
      TeleporterRegistryFilterer B
      → B.WatchOpts
      → List ℤ
      → List ℤ
      → Outcome (
          B.Subscription
          × (List Incoming → List TeleporterRegistryLatestVersionUpdated × Option (Option GoError)))
  watch_latest_version_updated filterer opts old_version new_version = do
    found ←
        B.watch_logs filterer.contract opts "LatestVersionUpdated"
          (latest_version_updated_rules old_version new_version)
    ok (found.1, watch_loop U set_raw filterer.contract "LatestVersionUpdated")

  unfoldable pub parse_latest_version_updated :
      TeleporterRegistryFilterer B → Log → Outcome TeleporterRegistryLatestVersionUpdated
  parse_latest_version_updated filterer log =
      Iterator.parse U set_raw filterer.contract "LatestVersionUpdated" log
