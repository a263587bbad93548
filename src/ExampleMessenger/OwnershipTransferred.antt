-- ===== src/ExampleMessenger/OwnershipTransferred.antt =====
-- abi-bindings/go/CrossChainApplications/ExampleMessenger/ExampleCrossChainMessenger/ExampleCrossChainMessenger.go:
-- the event OwnershipTransferred.
use teleporter.Base.{Bool, false, List, [], ◌∷◌, Option, none, GoError, Outcome, ok, ◌>>=◌, map}
use teleporter.ExampleMessenger.Types.{ExampleCrossChainMessengerOwnershipTransferred}
use teleporter.Bindings.Types.{Address, Log}
use teleporter.Bindings.Abi.{address}
use teleporter.Contract.Bound.{BindLib, Unpacker}
use teleporter.Bindings.Abi.{Argument}
use teleporter.Contract.Iterator
use teleporter.Contract.Iterator.{LogIterator, Selected}
use teleporter.Contract.Watch.{Incoming, watch_loop}
use teleporter.ExampleMessenger.Binding.{ExampleCrossChainMessengerFilterer}

-- `event.Raw = log`
unfoldable pub set_raw :
    ExampleCrossChainMessengerOwnershipTransferred
    → Log
    → ExampleCrossChainMessengerOwnershipTransferred
set_raw event log = record event { raw = log }

module _ (B : BindLib) (U : Unpacker B ExampleCrossChainMessengerOwnershipTransferred) where
  abbrev pub OwnershipTransferredIterator : Type 0
  OwnershipTransferredIterator = LogIterator B ExampleCrossChainMessengerOwnershipTransferred

  unfoldable pub next :
      Selected → Option Log → OwnershipTransferredIterator → OwnershipTransferredIterator × Bool
  next = Iterator.next U set_raw

  unfoldable pub error : OwnershipTransferredIterator → Option GoError
  error = Iterator.error U set_raw

  unfoldable pub close : OwnershipTransferredIterator → B.Subscription × Option GoError
  close = Iterator.close U set_raw

  -- The rules: the alternatives for each indexed input.
  unfoldable pub ownership_transferred_rules : List Address → List Address → List (List Argument)
  ownership_transferred_rules previous_owner new_owner =
      map address previous_owner ∷ map address new_owner ∷ []

  unfoldable pub filter_ownership_transferred :
      ExampleCrossChainMessengerFilterer B
      → B.FilterOpts
      → List Address
      → List Address
      → Outcome OwnershipTransferredIterator
  filter_ownership_transferred filterer opts previous_owner new_owner = do
    found ←
        B.filter_logs filterer.contract opts "OwnershipTransferred"
          (ownership_transferred_rules previous_owner new_owner)
    ok (record {
      event = none;
      contract = filterer.contract;
      event_name = "OwnershipTransferred";
      logs = found.0;
      sub = found.1;
      done = false;
      failure = none;
    })

  -- The subscription is its loop, over what the channels will deliver.
  unfoldable pub watch_ownership_transferred :
      ExampleCrossChainMessengerFilterer B
      → B.WatchOpts
      → List Address
      → List Address
      → Outcome (
          B.Subscription
          × (List Incoming
              → List ExampleCrossChainMessengerOwnershipTransferred × Option (Option GoError)))
  watch_ownership_transferred filterer opts previous_owner new_owner = do
    found ←
        B.watch_logs filterer.contract opts "OwnershipTransferred"
          (ownership_transferred_rules previous_owner new_owner)
    ok (found.1, watch_loop U set_raw filterer.contract "OwnershipTransferred")

  unfoldable pub parse_ownership_transferred :
      ExampleCrossChainMessengerFilterer B
      → Log
      → Outcome ExampleCrossChainMessengerOwnershipTransferred
  parse_ownership_transferred filterer log =
      Iterator.parse U set_raw filterer.contract "OwnershipTransferred" log
