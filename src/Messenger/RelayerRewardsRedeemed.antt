-- ===== src/Messenger/RelayerRewardsRedeemed.antt =====
-- abi-bindings/go/Teleporter/TeleporterMessenger/TeleporterMessenger.go: the event RelayerRewardsRedeemed.
use teleporter.Base.{Bool, false, List, [], ◌∷◌, Option, none, GoError, Outcome, ok, ◌>>=◌, map}
use teleporter.Bindings.Types.{Address, Log, TeleporterMessengerRelayerRewardsRedeemed}
use teleporter.Bindings.Abi.{address}
use teleporter.Contract.Bound.{BindLib, Unpacker}
use teleporter.Bindings.Abi.{Argument}
use teleporter.Contract.Iterator
use teleporter.Contract.Iterator.{LogIterator, Selected}
use teleporter.Contract.Watch.{Incoming, watch_loop}
use teleporter.Messenger.Binding.{TeleporterMessengerFilterer}

-- `event.Raw = log`
unfoldable pub set_raw :
    TeleporterMessengerRelayerRewardsRedeemed → Log → TeleporterMessengerRelayerRewardsRedeemed
set_raw event log = record event { raw = log }

module _ (B : BindLib) (U : Unpacker B TeleporterMessengerRelayerRewardsRedeemed) where
  abbrev pub RelayerRewardsRedeemedIterator : Type 0
  RelayerRewardsRedeemedIterator = LogIterator B TeleporterMessengerRelayerRewardsRedeemed

  unfoldable pub next :
      Selected → Option Log → RelayerRewardsRedeemedIterator → RelayerRewardsRedeemedIterator × Bool
  next = Iterator.next U set_raw

  unfoldable pub error : RelayerRewardsRedeemedIterator → Option GoError
  error = Iterator.error U set_raw

  unfoldable pub close : RelayerRewardsRedeemedIterator → B.Subscription × Option GoError
  close = Iterator.close U set_raw

  -- The rules: the alternatives for each indexed input.
  unfoldable pub relayer_rewards_redeemed_rules : List Address → List Address → List (List Argument)
  relayer_rewards_redeemed_rules redeemer asset = map address redeemer ∷ map address asset ∷ []

  unfoldable pub filter_relayer_rewards_redeemed :
      TeleporterMessengerFilterer B
      → B.FilterOpts
      → List Address
      → List Address
      → Outcome RelayerRewardsRedeemedIterator
  filter_relayer_rewards_redeemed filterer opts redeemer asset = do
    found ←
        B.filter_logs filterer.contract opts "RelayerRewardsRedeemed"
          (relayer_rewards_redeemed_rules redeemer asset)
    ok (record {
      event = none;
      contract = filterer.contract;
      event_name = "RelayerRewardsRedeemed";
      logs = found.0;
      sub = found.1;
      done = false;
      failure = none;
    })

  -- The subscription is its loop, over what the channels will deliver.
  unfoldable pub watch_relayer_rewards_redeemed :
      TeleporterMessengerFilterer B
      → B.WatchOpts
      → List Address
      → List Address
      → Outcome (
          B.Subscription
          × (List Incoming
              → List TeleporterMessengerRelayerRewardsRedeemed × Option (Option GoError)))
  watch_relayer_rewards_redeemed filterer opts redeemer asset = do
    found ←
        B.watch_logs filterer.contract opts "RelayerRewardsRedeemed"
          (relayer_rewards_redeemed_rules redeemer asset)
    ok (found.1, watch_loop U set_raw filterer.contract "RelayerRewardsRedeemed")

  unfoldable pub parse_relayer_rewards_redeemed :
      TeleporterMessengerFilterer B → Log → Outcome TeleporterMessengerRelayerRewardsRedeemed
  parse_relayer_rewards_redeemed filterer log =
      Iterator.parse U set_raw filterer.contract "RelayerRewardsRedeemed" log
