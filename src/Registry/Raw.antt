-- ===== src/Registry/Raw.antt =====
-- abi-bindings/go/Teleporter/upgrades/TeleporterRegistry/TeleporterRegistry.go: the low-level methods.
use teleporter.Base.{List, Outcome}
use teleporter.Contract.Bound.{BindLib}
use teleporter.Base.{String}
use teleporter.Bindings.Abi.{Argument}
use teleporter.Registry.Binding.{
  TeleporterRegistry, TeleporterRegistryCaller, TeleporterRegistryTransactor,
}

module _ (B : BindLib) where
  -- The bound contract as it is, with any method's name and arguments.
  pub record TeleporterRegistryRaw : Type 0 where
    pub contract : TeleporterRegistry B

  pub record TeleporterRegistryCallerRaw : Type 0 where
    pub contract : TeleporterRegistryCaller B

  pub record TeleporterRegistryTransactorRaw : Type 0 where
    pub contract : TeleporterRegistryTransactor B

  unfoldable pub raw_call :
      TeleporterRegistryRaw → B.CallOpts → String → List Argument → Outcome (List B.Any)
  raw_call raw opts method params = B.call raw.contract.caller.contract opts method params

  unfoldable pub raw_transfer : TeleporterRegistryRaw → B.TransactOpts → Outcome B.SignedTx
  raw_transfer raw opts = B.transfer raw.contract.transactor.contract opts

  unfoldable pub raw_transact :
      TeleporterRegistryRaw → B.TransactOpts → String → List Argument → Outcome B.SignedTx
  raw_transact raw opts method params =
      B.transact raw.contract.transactor.contract opts method params

  unfoldable pub caller_raw_call :
      TeleporterRegistryCallerRaw → B.CallOpts → String → List Argument → Outcome (List B.Any)
  caller_raw_call raw opts method params = B.call raw.contract.contract opts method params

  unfoldable pub transactor_raw_transfer :
      TeleporterRegistryTransactorRaw → B.TransactOpts → Outcome B.SignedTx
  transactor_raw_transfer raw opts = B.transfer raw.contract.contract opts

  unfoldable pub transactor_raw_transact :
      TeleporterRegistryTransactorRaw → B.TransactOpts → String → List Argument → Outcome B.SignedTx
  transactor_raw_transact raw opts method params =
      B.transact raw.contract.contract opts method params
