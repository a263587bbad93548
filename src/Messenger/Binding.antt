-- ===== src/Messenger/Binding.antt =====
-- abi-bindings/go/Teleporter/TeleporterMessenger/TeleporterMessenger.go: the structs of the binding, and how they are made.
use teleporter.Base.{[], Option, none, some, Outcome, ok, fail, new, ◌>>=◌}
use teleporter.Bindings.Types.{Address}
use teleporter.Contract.Bound.{BindLib, MetaData, deref}

module _ (B : BindLib) where
  pub record TeleporterMessengerCaller : Type 0 where
    pub contract : B.BoundContract

  pub record TeleporterMessengerTransactor : Type 0 where
    pub contract : B.BoundContract

  pub record TeleporterMessengerFilterer : Type 0 where
    pub contract : B.BoundContract

  pub record TeleporterMessenger : Type 0 where
    pub caller : TeleporterMessengerCaller
    pub transactor : TeleporterMessengerTransactor
    pub filterer : TeleporterMessengerFilterer

  -- The sessions: a contract with preset options.
  pub record TeleporterMessengerSession : Type 0 where
    pub contract : TeleporterMessenger
    pub call_opts : B.CallOpts
    pub transact_opts : B.TransactOpts

  pub record TeleporterMessengerCallerSession : Type 0 where
    pub contract : TeleporterMessengerCaller
    pub call_opts : B.CallOpts

  pub record TeleporterMessengerTransactorSession : Type 0 where
    pub contract : TeleporterMessengerTransactor
    pub transact_opts : B.TransactOpts

  -- The struct that `DeployTeleporterMessenger` and `NewTeleporterMessenger` return.
  unfoldable pub whole : B.BoundContract → TeleporterMessenger
  whole contract = record {
    caller = record { contract = contract };
    transactor = record { contract = contract };
    filterer = record { contract = contract };
  }

  -- `parsed == nil`
  unfoldable pub non_nil : Option B.ContractAbi → Outcome B.ContractAbi
  non_nil none = fail (new "GetABI returned nil")
  non_nil (some abi) = ok abi

  module _ (meta : MetaData B) where
    unfoldable pub deploy_teleporter_messenger :
        B.TransactOpts → B.Backend → Outcome (Address × B.SignedTx × TeleporterMessenger)
    deploy_teleporter_messenger auth backend = do
      parsed ← meta.get_abi
      abi ← non_nil parsed
      deployed ← B.deploy_contract auth abi meta.bin backend ([])
      ok (deployed.0, deployed.1, whole deployed.2)

    unfoldable pub bind_teleporter_messenger :
        Address → Option B.Backend → Option B.Backend → Option B.Backend → Outcome B.BoundContract
    bind_teleporter_messenger addr caller transactor filterer = do
      parsed ← meta.get_abi
      abi ← deref parsed
      ok (B.new_bound_contract addr abi caller transactor filterer)

    unfoldable pub new_teleporter_messenger : Address → B.Backend → Outcome TeleporterMessenger
    new_teleporter_messenger addr backend = do
      contract ← bind_teleporter_messenger addr (some backend) (some backend) (some backend)
      ok (whole contract)

    unfoldable pub new_teleporter_messenger_caller :
        Address → B.Backend → Outcome TeleporterMessengerCaller
    new_teleporter_messenger_caller addr caller = do
      contract ← bind_teleporter_messenger addr (some caller) none none
      ok (record { contract = contract })

    unfoldable pub new_teleporter_messenger_transactor :
        Address → B.Backend → Outcome TeleporterMessengerTransactor
    new_teleporter_messenger_transactor addr transactor = do
      contract ← bind_teleporter_messenger addr none (some transactor) none
      ok (record { contract = contract })

    unfoldable pub new_teleporter_messenger_filterer :
        Address → B.Backend → Outcome TeleporterMessengerFilterer
    new_teleporter_messenger_filterer addr filterer = do
      contract ← bind_teleporter_messenger addr none none (some filterer)
      ok (record { contract = contract })
