-- ===== src/Registry/Binding.antt =====
-- abi-bindings/go/Teleporter/upgrades/TeleporterRegistry/TeleporterRegistry.go: the structs of the binding, and how they are made.
use teleporter.Base.{List, [], ◌∷◌, Option, none, some, Outcome, ok, fail, new, ◌>>=◌}
use teleporter.Bindings.Types.{Address, ProtocolRegistryEntry}
use teleporter.Bindings.Abi.{registry_entries}
use teleporter.Contract.Bound.{BindLib, MetaData, deref}

module _ (B : BindLib) where
  pub record TeleporterRegistryCaller : Type 0 where
    pub contract : B.BoundContract

  pub record TeleporterRegistryTransactor : Type 0 where
    pub contract : B.BoundContract

  pub record TeleporterRegistryFilterer : Type 0 where
    pub contract : B.BoundContract

  pub record TeleporterRegistry : Type 0 where
    pub caller : TeleporterRegistryCaller
    pub transactor : TeleporterRegistryTransactor
    pub filterer : TeleporterRegistryFilterer

  -- The sessions: a contract with preset options.
  pub record TeleporterRegistrySession : Type 0 where
    pub contract : TeleporterRegistry
    pub call_opts : B.CallOpts
    pub transact_opts : B.TransactOpts

  pub record TeleporterRegistryCallerSession : Type 0 where
    pub contract : TeleporterRegistryCaller
    pub call_opts : B.CallOpts

  pub record TeleporterRegistryTransactorSession : Type 0 where
    pub contract : TeleporterRegistryTransactor
    pub transact_opts : B.TransactOpts

  -- The struct that `DeployTeleporterRegistry` and `NewTeleporterRegistry` return.
  unfoldable pub whole : B.BoundContract → TeleporterRegistry
  whole contract = record {
    caller = record { contract = contract };
    transactor = record { contract = contract };
    filterer = record { contract = contract };
  }

  -- `parsed == nil`
  unfoldable pub non_nil : Option B.ContractAbi → Outcome B.ContractAbi
  non_nil none = fail (new "GetABI returned nil")
  non_nil (some abi) = ok abi

  module _ (meta : MetaData B) where
    unfoldable pub deploy_teleporter_registry :
        B.TransactOpts
        → B.Backend
        → List ProtocolRegistryEntry
        → Outcome (Address × B.SignedTx × TeleporterRegistry)
    deploy_teleporter_registry auth backend initial_entries = do
      parsed ← meta.get_abi
      abi ← non_nil parsed
      deployed ← B.deploy_contract auth abi meta.bin backend (registry_entries initial_entries ∷ [])
      ok (deployed.0, deployed.1, whole deployed.2)

    unfoldable pub bind_teleporter_registry :
        Address → Option B.Backend → Option B.Backend → Option B.Backend → Outcome B.BoundContract
    bind_teleporter_registry addr caller transactor filterer = do
      parsed ← meta.get_abi
      abi ← deref parsed
      ok (B.new_bound_contract addr abi caller transactor filterer)

    unfoldable pub new_teleporter_registry : Address → B.Backend → Outcome TeleporterRegistry
    new_teleporter_registry addr backend = do
      contract ← bind_teleporter_registry addr (some backend) (some backend) (some backend)
      ok (whole contract)

    unfoldable pub new_teleporter_registry_caller :
        Address → B.Backend → Outcome TeleporterRegistryCaller
    new_teleporter_registry_caller addr caller = do
      contract ← bind_teleporter_registry addr (some caller) none none
      ok (record { contract = contract })

    unfoldable pub new_teleporter_registry_transactor :
        Address → B.Backend → Outcome TeleporterRegistryTransactor
    new_teleporter_registry_transactor addr transactor = do
      contract ← bind_teleporter_registry addr none (some transactor) none
      ok (record { contract = contract })

    unfoldable pub new_teleporter_registry_filterer :
        Address → B.Backend → Outcome TeleporterRegistryFilterer
    new_teleporter_registry_filterer addr filterer = do
      contract ← bind_teleporter_registry addr none none (some filterer)
      ok (record { contract = contract })
