-- ===== src/BlockHash/Types.antt =====
-- abi-bindings/go/CrossChainApplications/VerifiedBlockHash/BlockHashPublisher/BlockHashPublisher.go:
-- the events.
use teleporter.Base.{ℤ}
use teleporter.Bindings.Types.{Address, Hash, Log}

-- The event PublishBlockHash, with its log as it came.
pub record BlockHashPublisherPublishBlockHash : Type 0 where
  pub destination_blockchain_id : Hash
  pub destination_address : Address
  pub block_height : ℤ
  pub block_hash : Hash
  pub raw : Log
