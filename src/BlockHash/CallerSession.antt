-- ===== src/BlockHash/CallerSession.antt =====
-- abi-bindings/go/CrossChainApplications/VerifiedBlockHash/BlockHashPublisher/BlockHashPublisher.go:
-- the reading methods with the options of a session.
use teleporter.Base.{ℤ, Outcome}
use teleporter.Bindings.Types.{Address}
use teleporter.Contract.Bound.{BindLib}
use teleporter.BlockHash.Binding.{BlockHashPublisherCallerSession}
use teleporter.BlockHash.Caller

module _ (B : BindLib) where
  unfoldable pub receive_block_hash_required_gas_limit :
      BlockHashPublisherCallerSession B → Outcome ℤ
  receive_block_hash_required_gas_limit session =
      Caller.receive_block_hash_required_gas_limit B session.contract session.call_opts

  unfoldable pub teleporter_registry : BlockHashPublisherCallerSession B → Outcome Address
  teleporter_registry session = Caller.teleporter_registry B session.contract session.call_opts
