-- ===== src/BlockHash/Raw.antt =====
-- abi-bindings/go/CrossChainApplications/VerifiedBlockHash/BlockHashPublisher/BlockHashPublisher.go:
-- the low-level methods.
use teleporter.Base.{List, Outcome}
use teleporter.Contract.Bound.{BindLib}
use teleporter.Base.{String}
use teleporter.Bindings.Abi.{Argument}
use teleporter.BlockHash.Binding.{
  BlockHashPublisher, BlockHashPublisherCaller, BlockHashPublisherTransactor,
}

module _ (B : BindLib) where
  -- The bound contract as it is, with any method's name and arguments.
  pub record BlockHashPublisherRaw : Type 0 where
    pub contract : BlockHashPublisher B

  pub record BlockHashPublisherCallerRaw : Type 0 where
    pub contract : BlockHashPublisherCaller B

  pub record BlockHashPublisherTransactorRaw : Type 0 where
    pub contract : BlockHashPublisherTransactor B

  unfoldable pub raw_call :
      BlockHashPublisherRaw → B.CallOpts → String → List Argument → Outcome (List B.Any)
  raw_call raw opts method params = B.call raw.contract.caller.contract opts method params

  unfoldable pub raw_transfer : BlockHashPublisherRaw → B.TransactOpts → Outcome B.SignedTx
  raw_transfer raw opts = B.transfer raw.contract.transactor.contract opts

  unfoldable pub raw_transact :
      BlockHashPublisherRaw → B.TransactOpts → String → List Argument → Outcome B.SignedTx
  raw_transact raw opts method params =
      B.transact raw.contract.transactor.contract opts method params

  unfoldable pub caller_raw_call :
      BlockHashPublisherCallerRaw → B.CallOpts → String → List Argument → Outcome (List B.Any)
  caller_raw_call raw opts method params = B.call raw.contract.contract opts method params

  unfoldable pub transactor_raw_transfer :
      BlockHashPublisherTransactorRaw → B.TransactOpts → Outcome B.SignedTx
  transactor_raw_transfer raw opts = B.transfer raw.contract.contract opts

  unfoldable pub transactor_raw_transact :
      BlockHashPublisherTransactorRaw → B.TransactOpts → String → List Argument → Outcome B.SignedTx
  transactor_raw_transact raw opts method params =
      B.transact raw.contract.contract opts method params
