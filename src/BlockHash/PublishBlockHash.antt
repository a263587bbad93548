-- ===== src/BlockHash/PublishBlockHash.antt =====
-- abi-bindings/go/CrossChainApplications/VerifiedBlockHash/BlockHashPublisher/BlockHashPublisher.go:
-- the event PublishBlockHash.
use teleporter.Base.{ℤ, Bool, false, List, [], ◌∷◌, Option, none, GoError, Outcome, ok, ◌>>=◌, map}
use teleporter.BlockHash.Types.{BlockHashPublisherPublishBlockHash}
use teleporter.Bindings.Types.{Address, Hash, Log}
use teleporter.Bindings.Abi.{identifier, big_int, address}
use teleporter.Contract.Bound.{BindLib, Unpacker}
use teleporter.Bindings.Abi.{Argument}
use teleporter.Contract.Iterator
use teleporter.Contract.Iterator.{LogIterator, Selected}
use teleporter.Contract.Watch.{Incoming, watch_loop}
use teleporter.BlockHash.Binding.{BlockHashPublisherFilterer}

-- `event.Raw = log`
unfoldable pub set_raw :
    BlockHashPublisherPublishBlockHash → Log → BlockHashPublisherPublishBlockHash
set_raw event log = record event { raw = log }

module _ (B : BindLib) (U : Unpacker B BlockHashPublisherPublishBlockHash) where
  abbrev pub PublishBlockHashIterator : Type 0
  PublishBlockHashIterator = LogIterator B BlockHashPublisherPublishBlockHash

  unfoldable pub next :
      Selected → Option Log → PublishBlockHashIterator → PublishBlockHashIterator × Bool
  next = Iterator.next U set_raw

  unfoldable pub error : PublishBlockHashIterator → Option GoError
  error = Iterator.error U set_raw

  unfoldable pub close : PublishBlockHashIterator → B.Subscription × Option GoError
  close = Iterator.close U set_raw

  -- The rules: the alternatives for each indexed input.
  unfoldable pub publish_block_hash_rules : List Hash → List Address → List ℤ → List (List Argument)
  publish_block_hash_rules destination_blockchain_id destination_address block_height =
      map identifier destination_blockchain_id
      ∷ map address destination_address
      ∷ map big_int block_height
      ∷ []

  unfoldable pub filter_publish_block_hash :
      BlockHashPublisherFilterer B
      → B.FilterOpts
      → List Hash
      → List Address
      → List ℤ
      → Outcome PublishBlockHashIterator
  filter_publish_block_hash filterer opts destination_blockchain_id destination_address
        block_height =
      do
        found ←
            B.filter_logs filterer.contract opts "PublishBlockHash"
              (publish_block_hash_rules destination_blockchain_id destination_address block_height)
        ok (record {
          event = none;
          contract = filterer.contract;
          event_name = "PublishBlockHash";
          logs = found.0;
          sub = found.1;
          done = false;
          failure = none;
        })

  -- The subscription is its loop, over what the channels will deliver.
  unfoldable pub watch_publish_block_hash :
      BlockHashPublisherFilterer B
      → B.WatchOpts
      → List Hash
      → List Address
      → List ℤ
      → Outcome (
          B.Subscription
          × (List Incoming → List BlockHashPublisherPublishBlockHash × Option (Option GoError)))
  watch_publish_block_hash filterer opts destination_blockchain_id destination_address
        block_height =
      do
        found ←
            B.watch_logs filterer.contract opts "PublishBlockHash"
              (publish_block_hash_rules destination_blockchain_id destination_address block_height)
        ok (found.1, watch_loop U set_raw filterer.contract "PublishBlockHash")

  unfoldable pub parse_publish_block_hash :
      BlockHashPublisherFilterer B → Log → Outcome BlockHashPublisherPublishBlockHash
  parse_publish_block_hash filterer log =
      Iterator.parse U set_raw filterer.contract "PublishBlockHash" log
