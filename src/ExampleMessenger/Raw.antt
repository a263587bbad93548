-- ===== src/ExampleMessenger/Raw.antt =====
-- abi-bindings/go/CrossChainApplications/ExampleMessenger/ExampleCrossChainMessenger/ExampleCrossChainMessenger.go:
-- the low-level methods.
use teleporter.Base.{List, Outcome}
use teleporter.Contract.Bound.{BindLib}
use teleporter.Base.{String}
use teleporter.Bindings.Abi.{Argument}
use teleporter.ExampleMessenger.Binding.{
  ExampleCrossChainMessenger, ExampleCrossChainMessengerCaller,
  ExampleCrossChainMessengerTransactor,
}

module _ (B : BindLib) where
  -- The bound contract as it is, with any method's name and arguments.
  pub record ExampleCrossChainMessengerRaw : Type 0 where
    pub contract : ExampleCrossChainMessenger B

  pub record ExampleCrossChainMessengerCallerRaw : Type 0 where
    pub contract : ExampleCrossChainMessengerCaller B

  pub record ExampleCrossChainMessengerTransactorRaw : Type 0 where
    pub contract : ExampleCrossChainMessengerTransactor B

  unfoldable pub raw_call :
      ExampleCrossChainMessengerRaw → B.CallOpts → String → List Argument → Outcome (List B.Any)
  raw_call raw opts method params = B.call raw.contract.caller.contract opts method params

  unfoldable pub raw_transfer : ExampleCrossChainMessengerRaw → B.TransactOpts → Outcome B.SignedTx
  raw_transfer raw opts = B.transfer raw.contract.transactor.contract opts

  unfoldable pub raw_transact :
      ExampleCrossChainMessengerRaw → B.TransactOpts → String → List Argument → Outcome B.SignedTx
  raw_transact raw opts method params =
      B.transact raw.contract.transactor.contract opts method params

  unfoldable pub caller_raw_call :
      ExampleCrossChainMessengerCallerRaw
      → B.CallOpts
      → String
      → List Argument
      → Outcome (List B.Any)
  caller_raw_call raw opts method params = B.call raw.contract.contract opts method params

  unfoldable pub transactor_raw_transfer :
      ExampleCrossChainMessengerTransactorRaw → B.TransactOpts → Outcome B.SignedTx
  transactor_raw_transfer raw opts = B.transfer raw.contract.contract opts

  unfoldable pub transactor_raw_transact :
      ExampleCrossChainMessengerTransactorRaw
      → B.TransactOpts
      → String
      → List Argument
      → Outcome B.SignedTx
  transactor_raw_transact raw opts method params =
      B.transact raw.contract.contract opts method params
