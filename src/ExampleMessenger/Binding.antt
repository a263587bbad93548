-- ===== src/ExampleMessenger/Binding.antt =====
-- abi-bindings/go/CrossChainApplications/ExampleMessenger/ExampleCrossChainMessenger/ExampleCrossChainMessenger.go:
-- the structs of the binding, and how they are made.
use teleporter.Base.{[], ◌∷◌, Option, none, some, Outcome, ok, fail, new, ◌>>=◌}
use teleporter.Bindings.Types.{Address}
use teleporter.Bindings.Abi.{address}
use teleporter.Contract.Bound.{BindLib, MetaData, deref}

module _ (B : BindLib) where
  pub record ExampleCrossChainMessengerCaller : Type 0 where
    pub contract : B.BoundContract

  pub record ExampleCrossChainMessengerTransactor : Type 0 where
    pub contract : B.BoundContract

  pub record ExampleCrossChainMessengerFilterer : Type 0 where
    pub contract : B.BoundContract

  pub record ExampleCrossChainMessenger : Type 0 where
    pub caller : ExampleCrossChainMessengerCaller
    pub transactor : ExampleCrossChainMessengerTransactor
    pub filterer : ExampleCrossChainMessengerFilterer

  -- The sessions: a contract with preset options.
  pub record ExampleCrossChainMessengerSession : Type 0 where
    pub contract : ExampleCrossChainMessenger
    pub call_opts : B.CallOpts
    pub transact_opts : B.TransactOpts

  pub record ExampleCrossChainMessengerCallerSession : Type 0 where
    pub contract : ExampleCrossChainMessengerCaller
    pub call_opts : B.CallOpts

  pub record ExampleCrossChainMessengerTransactorSession : Type 0 where
    pub contract : ExampleCrossChainMessengerTransactor
    pub transact_opts : B.TransactOpts

  -- The struct that `DeployExampleCrossChainMessenger` and `NewExampleCrossChainMessenger` return.
  unfoldable pub whole : B.BoundContract → ExampleCrossChainMessenger
  whole contract = record {
    caller = record { contract = contract };
    transactor = record { contract = contract };
    filterer = record { contract = contract };
  }

  -- `parsed == nil`
  unfoldable pub non_nil : Option B.ContractAbi → Outcome B.ContractAbi
  non_nil none = fail (new "GetABI returned nil")
  non_nil (some abi) = ok abi

  module _ (meta : MetaData B) where
    unfoldable pub deploy_example_cross_chain_messenger :
        B.TransactOpts
        → B.Backend
        → Address
        → Outcome (Address × B.SignedTx × ExampleCrossChainMessenger)
    deploy_example_cross_chain_messenger auth backend teleporter_registry_address = do
      parsed ← meta.get_abi
      abi ← non_nil parsed
      deployed ←
          B.deploy_contract auth abi meta.bin backend (address teleporter_registry_address ∷ [])
      ok (deployed.0, deployed.1, whole deployed.2)

    unfoldable pub bind_example_cross_chain_messenger :
        Address → Option B.Backend → Option B.Backend → Option B.Backend → Outcome B.BoundContract
    bind_example_cross_chain_messenger addr caller transactor filterer = do
      parsed ← meta.get_abi
      abi ← deref parsed
      ok (B.new_bound_contract addr abi caller transactor filterer)

    unfoldable pub new_example_cross_chain_messenger :
        Address → B.Backend → Outcome ExampleCrossChainMessenger
    new_example_cross_chain_messenger addr backend = do
      contract ←
          bind_example_cross_chain_messenger addr (some backend) (some backend) (some backend)
      ok (whole contract)

    unfoldable pub new_example_cross_chain_messenger_caller :
        Address → B.Backend → Outcome ExampleCrossChainMessengerCaller
    new_example_cross_chain_messenger_caller addr caller = do
      contract ← bind_example_cross_chain_messenger addr (some caller) none none
      ok (record { contract = contract })

    unfoldable pub new_example_cross_chain_messenger_transactor :
        Address → B.Backend → Outcome ExampleCrossChainMessengerTransactor
    new_example_cross_chain_messenger_transactor addr transactor = do
      contract ← bind_example_cross_chain_messenger addr none (some transactor) none
      ok (record { contract = contract })

    unfoldable pub new_example_cross_chain_messenger_filterer :
        Address → B.Backend → Outcome ExampleCrossChainMessengerFilterer
    new_example_cross_chain_messenger_filterer addr filterer = do
      contract ← bind_example_cross_chain_messenger addr none none (some filterer)
      ok (record { contract = contract })
