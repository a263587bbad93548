-- ===== src/BlockHash/Transactor.antt =====
-- abi-bindings/go/CrossChainApplications/VerifiedBlockHash/BlockHashPublisher/BlockHashPublisher.go:
-- the methods that send a transaction.
use teleporter.Base.{[], ◌∷◌, Outcome}
use teleporter.Bindings.Types.{Address, Hash}
use teleporter.Bindings.Abi.{identifier, address}
use teleporter.Contract.Bound.{BindLib}
use teleporter.BlockHash.Binding.{BlockHashPublisherTransactor}

module _ (B : BindLib) where
  unfoldable pub publish_latest_block_hash :
      BlockHashPublisherTransactor B → B.TransactOpts → Hash → Address → Outcome B.SignedTx
  publish_latest_block_hash transactor opts destination_blockchain_id destination_address =
      B.transact transactor.contract opts "publishLatestBlockHash"
        (identifier destination_blockchain_id ∷ address destination_address ∷ [])
