-- ===== src/BlockHash/Session.antt =====
-- abi-bindings/go/CrossChainApplications/VerifiedBlockHash/BlockHashPublisher/BlockHashPublisher.go:
-- the methods with the options of a session.
use teleporter.Base.{ℤ, Outcome}
use teleporter.Bindings.Types.{Address, Hash}
use teleporter.Contract.Bound.{BindLib}
use teleporter.BlockHash.Binding.{BlockHashPublisherSession}
use teleporter.BlockHash.Caller
use teleporter.BlockHash.Transactor

module _ (B : BindLib) where
  unfoldable pub receive_block_hash_required_gas_limit : BlockHashPublisherSession B → Outcome ℤ
  receive_block_hash_required_gas_limit session =
      Caller.receive_block_hash_required_gas_limit B session.contract.caller session.call_opts

  unfoldable pub teleporter_registry : BlockHashPublisherSession B → Outcome Address
  teleporter_registry session =
      Caller.teleporter_registry B session.contract.caller session.call_opts

  unfoldable pub publish_latest_block_hash :
      BlockHashPublisherSession B → Hash → Address → Outcome B.SignedTx
  publish_latest_block_hash session destination_blockchain_id destination_address =
      Transactor.publish_latest_block_hash B session.contract.transactor session.transact_opts
        destination_blockchain_id destination_address
