-- ===== src/Registry/AddProtocolVersion.antt =====
-- abi-bindings/go/Teleporter/upgrades/TeleporterRegistry/TeleporterRegistry.go: the event AddProtocolVersion.
use teleporter.Base.{ℤ, Bool, false, List, [], ◌∷◌, Option, none, GoError, Outcome, ok, ◌>>=◌, map}
use teleporter.Bindings.Types.{Address, Log, TeleporterRegistryAddProtocolVersion}
use teleporter.Bindings.Abi.{big_int, address}
use teleporter.Contract.Bound.{BindLib, Unpacker}
use teleporter.Bindings.Abi.{Argument}
use teleporter.Contract.Iterator
use teleporter.Contract.Iterator.{LogIterator, Selected}
use teleporter.Contract.Watch.{Incoming, watch_loop}
use teleporter.Registry.Binding.{TeleporterRegistryFilterer}

-- `event.Raw = log`
unfoldable pub set_raw :
    TeleporterRegistryAddProtocolVersion → Log → TeleporterRegistryAddProtocolVersion
set_raw event log = record event { raw = log }

module _ (B : BindLib) (U : Unpacker B TeleporterRegistryAddProtocolVersion) where
  abbrev pub AddProtocolVersionIterator : Type 0
  AddProtocolVersionIterator = LogIterator B TeleporterRegistryAddProtocolVersion

  unfoldable pub next :
      Selected → Option Log → AddProtocolVersionIterator → AddProtocolVersionIterator × Bool
  next = Iterator.next U set_raw

  unfoldable pub error : AddProtocolVersionIterator → Option GoError
  error = Iterator.error U set_raw

  unfoldable pub close : AddProtocolVersionIterator → B.Subscription × Option GoError
  close = Iterator.close U set_raw

  -- The rules: the alternatives for each indexed input.
  unfoldable pub add_protocol_version_rules : List ℤ → List Address → List (List Argument)
  add_protocol_version_rules version protocol_address =
      map big_int version ∷ map address protocol_address ∷ []

  unfoldable pub filter_add_protocol_version :
      TeleporterRegistryFilterer B
      → B.FilterOpts
      → List ℤ
      → List Address
      → Outcome AddProtocolVersionIterator
  filter_add_protocol_version filterer opts version protocol_address = do
    found ←
        B.filter_logs filterer.contract opts "AddProtocolVersion"
          (add_protocol_version_rules version protocol_address)
    ok (record {
      event = none;
      contract = filterer.contract;
      event_name = "AddProtocolVersion";
      logs = found.0;
      sub = found.1;
      done = false;
      failure = none;
    })

  -- The subscription is its loop, over what the channels will deliver.
  unfoldable pub watch_add_protocol_version :
      TeleporterRegistryFilterer B
      → B.WatchOpts
      → List ℤ
      → List Address
      → Outcome (
          B.Subscription
          × (List Incoming → List TeleporterRegistryAddProtocolVersion × Option (Option GoError)))
  watch_add_protocol_version filterer opts version protocol_address = do
    found ←
        B.watch_logs filterer.contract opts "AddProtocolVersion"
          (add_protocol_version_rules version protocol_address)
    ok (found.1, watch_loop U set_raw filterer.contract "AddProtocolVersion")

  unfoldable pub parse_add_protocol_version :
      TeleporterRegistryFilterer B → Log → Outcome TeleporterRegistryAddProtocolVersion
  parse_add_protocol_version filterer log =
      Iterator.parse U set_raw filterer.contract "AddProtocolVersion" log
