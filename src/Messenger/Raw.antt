-- ===== src/Messenger/Raw.antt =====
-- abi-bindings/go/Teleporter/TeleporterMessenger/TeleporterMessenger.go: the low-level methods.
use teleporter.Base.{List, Outcome}
use teleporter.Contract.Bound.{BindLib}
use teleporter.Base.{String}
use teleporter.Bindings.Abi.{Argument}
use teleporter.Messenger.Binding.{
  TeleporterMessenger, TeleporterMessengerCaller, TeleporterMessengerTransactor,
}

module _ (B : BindLib) where
  -- The bound contract as it is, with any method's name and arguments.
  pub record TeleporterMessengerRaw : Type 0 where
    pub contract : TeleporterMessenger B

  pub record TeleporterMessengerCallerRaw : Type 0 where
    pub contract : TeleporterMessengerCaller B

  pub record TeleporterMessengerTransactorRaw : Type 0 where
    pub contract : TeleporterMessengerTransactor B

  unfoldable pub raw_call :
      TeleporterMessengerRaw → B.CallOpts → String → List Argument → Outcome (List B.Any)
  raw_call raw opts method params = B.call raw.contract.caller.contract opts method params

  unfoldable pub raw_transfer : TeleporterMessengerRaw → B.TransactOpts → Outcome B.SignedTx
  raw_transfer raw opts = B.transfer raw.contract.transactor.contract opts

  unfoldable pub raw_transact :
      TeleporterMessengerRaw → B.TransactOpts → String → List Argument → Outcome B.SignedTx
  raw_transact raw opts method params =
      B.transact raw.contract.transactor.contract opts method params

  unfoldable pub caller_raw_call :
      TeleporterMessengerCallerRaw → B.CallOpts → String → List Argument → Outcome (List B.Any)
  caller_raw_call raw opts method params = B.call raw.contract.contract opts method params

  unfoldable pub transactor_raw_transfer :
      TeleporterMessengerTransactorRaw → B.TransactOpts → Outcome B.SignedTx
  transactor_raw_transfer raw opts = B.transfer raw.contract.contract opts

  unfoldable pub transactor_raw_transact :
      TeleporterMessengerTransactorRaw
      → B.TransactOpts
      → String
      → List Argument
      → Outcome B.SignedTx
  transactor_raw_transact raw opts method params =
      B.transact raw.contract.contract opts method params
