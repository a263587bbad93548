-- ===== src/Messenger/AddFeeAmount.antt =====
-- abi-bindings/go/Teleporter/TeleporterMessenger/TeleporterMessenger.go: the event AddFeeAmount.
use teleporter.Base.{ℤ, Bool, false, List, [], ◌∷◌, Option, none, GoError, Outcome, ok, ◌>>=◌, map}
use teleporter.Bindings.Types.{Hash, Log, TeleporterMessengerAddFeeAmount}
use teleporter.Bindings.Abi.{identifier, big_int}
use teleporter.Contract.Bound.{BindLib, Unpacker}
use teleporter.Bindings.Abi.{Argument}
use teleporter.Contract.Iterator
use teleporter.Contract.Iterator.{LogIterator, Selected}
use teleporter.Contract.Watch.{Incoming, watch_loop}
use teleporter.Messenger.Binding.{TeleporterMessengerFilterer}

-- `event.Raw = log`
unfoldable pub set_raw : TeleporterMessengerAddFeeAmount → Log → TeleporterMessengerAddFeeAmount
set_raw event log = record event { raw = log }

module _ (B : BindLib) (U : Unpacker B TeleporterMessengerAddFeeAmount) where
  abbrev pub AddFeeAmountIterator : Type 0
  AddFeeAmountIterator = LogIterator B TeleporterMessengerAddFeeAmount

  unfoldable pub next : Selected → Option Log → AddFeeAmountIterator → AddFeeAmountIterator × Bool
  next = Iterator.next U set_raw

  unfoldable pub error : AddFeeAmountIterator → Option GoError
  error = Iterator.error U set_raw

  unfoldable pub close : AddFeeAmountIterator → B.Subscription × Option GoError
  close = Iterator.close U set_raw

  -- The rules: the alternatives for each indexed input.
  unfoldable pub add_fee_amount_rules : List Hash → List ℤ → List (List Argument)
  add_fee_amount_rules destination_blockchain_id message_id =
      map identifier destination_blockchain_id ∷ map big_int message_id ∷ []

  unfoldable pub filter_add_fee_amount :
      TeleporterMessengerFilterer B
      → B.FilterOpts
      → List Hash
      → List ℤ
      → Outcome AddFeeAmountIterator
  filter_add_fee_amount filterer opts destination_blockchain_id message_id = do
    found ←
        B.filter_logs filterer.contract opts "AddFeeAmount"
          (add_fee_amount_rules destination_blockchain_id message_id)
    ok (record {
      event = none;
      contract = filterer.contract;
      event_name = "AddFeeAmount";
      logs = found.0;
      sub = found.1;
      done = false;
      failure = none;
    })

  -- The subscription is its loop, over what the channels will deliver.
  unfoldable pub watch_add_fee_amount :
      TeleporterMessengerFilterer B
      → B.WatchOpts
      → List Hash
      → List ℤ
      → Outcome (
          B.Subscription
          × (List Incoming → List TeleporterMessengerAddFeeAmount × Option (Option GoError)))
  watch_add_fee_amount filterer opts destination_blockchain_id message_id = do
    found ←
        B.watch_logs filterer.contract opts "AddFeeAmount"
          (add_fee_amount_rules destination_blockchain_id message_id)
    ok (found.1, watch_loop U set_raw filterer.contract "AddFeeAmount")

  unfoldable pub parse_add_fee_amount :
      TeleporterMessengerFilterer B → Log → Outcome TeleporterMessengerAddFeeAmount
  parse_add_fee_amount filterer log = Iterator.parse U set_raw filterer.contract "AddFeeAmount" log
