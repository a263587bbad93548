-- ===== src/BlockHash/TransactorSession.antt =====
-- abi-bindings/go/CrossChainApplications/VerifiedBlockHash/BlockHashPublisher/BlockHashPublisher.go:
-- the sending methods with the options of a session.
use teleporter.Base.{Outcome}
use teleporter.Bindings.Types.{Address, Hash}
use teleporter.Contract.Bound.{BindLib}
use teleporter.BlockHash.Binding.{BlockHashPublisherTransactorSession}
use teleporter.BlockHash.Transactor

module _ (B : BindLib) where
  unfoldable pub publish_latest_block_hash :
      BlockHashPublisherTransactorSession B → Hash → Address → Outcome B.SignedTx
  publish_latest_block_hash session destination_blockchain_id destination_address =
      Transactor.publish_latest_block_hash B session.contract session.transact_opts
        destination_blockchain_id destination_address
