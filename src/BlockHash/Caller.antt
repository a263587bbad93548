-- ===== src/BlockHash/Caller.antt =====
-- abi-bindings/go/CrossChainApplications/VerifiedBlockHash/BlockHashPublisher/BlockHashPublisher.go:
-- the methods that read the contract.
use teleporter.Base.{ℤ, [], Outcome, ok, ◌>>=◌}
use teleporter.Bindings.Types.{Address}
use teleporter.Contract.Bound.{BindLib, out_at}
use teleporter.BlockHash.Binding.{BlockHashPublisherCaller}

module _ (B : BindLib) where
  unfoldable pub receive_block_hash_required_gas_limit :
      BlockHashPublisherCaller B → B.CallOpts → Outcome ℤ
  receive_block_hash_required_gas_limit caller opts = do
    out ← B.call caller.contract opts "RECEIVE_BLOCK_HASH_REQUIRED_GAS_LIMIT" ([])
    value0 ← out_at out 0
    out0 ← B.to_big_int value0
    ok out0

  unfoldable pub teleporter_registry : BlockHashPublisherCaller B → B.CallOpts → Outcome Address
  teleporter_registry caller opts = do
    out ← B.call caller.contract opts "teleporterRegistry" ([])
    value0 ← out_at out 0
    out0 ← B.to_address value0
    ok out0
