-- ===== src/BlockHash/Binding.antt =====
-- abi-bindings/go/CrossChainApplications/VerifiedBlockHash/BlockHashPublisher/BlockHashPublisher.go:
-- the structs of the binding, and how they are made.
use teleporter.Base.{[], ◌∷◌, Option, none, some, Outcome, ok, fail, new, ◌>>=◌}
use teleporter.Bindings.Types.{Address}
use teleporter.Bindings.Abi.{address}
use teleporter.Contract.Bound.{BindLib, MetaData, deref}

module _ (B : BindLib) where
  pub record BlockHashPublisherCaller : Type 0 where
    pub contract : B.BoundContract

  pub record BlockHashPublisherTransactor : Type 0 where
    pub contract : B.BoundContract

  pub record BlockHashPublisherFilterer : Type 0 where
    pub contract : B.BoundContract

  pub record BlockHashPublisher : Type 0 where
    pub caller : BlockHashPublisherCaller
    pub transactor : BlockHashPublisherTransactor
    pub filterer : BlockHashPublisherFilterer

  -- The sessions: a contract with preset options.
  pub record BlockHashPublisherSession : Type 0 where
    pub contract : BlockHashPublisher
    pub call_opts : B.CallOpts
    pub transact_opts : B.TransactOpts

  pub record BlockHashPublisherCallerSession : Type 0 where
    pub contract : BlockHashPublisherCaller
    pub call_opts : B.CallOpts

  pub record BlockHashPublisherTransactorSession : Type 0 where
    pub contract : BlockHashPublisherTransactor
    pub transact_opts : B.TransactOpts

  -- The struct that `DeployBlockHashPublisher` and `NewBlockHashPublisher` return.
  unfoldable pub whole : B.BoundContract → BlockHashPublisher
  whole contract = record {
    caller = record { contract = contract };
    transactor = record { contract = contract };
    filterer = record { contract = contract };
  }

  -- `parsed == nil`
  unfoldable pub non_nil : Option B.ContractAbi → Outcome B.ContractAbi
  non_nil none = fail (new "GetABI returned nil")
  non_nil (some abi) = ok abi

  module _ (meta : MetaData B) where
    unfoldable pub deploy_block_hash_publisher :
        B.TransactOpts → B.Backend → Address → Outcome (Address × B.SignedTx × BlockHashPublisher)
    deploy_block_hash_publisher auth backend teleporter_registry_address = do
      parsed ← meta.get_abi
      abi ← non_nil parsed
      deployed ←
          B.deploy_contract auth abi meta.bin backend (address teleporter_registry_address ∷ [])
      ok (deployed.0, deployed.1, whole deployed.2)

    unfoldable pub bind_block_hash_publisher :
        Address → Option B.Backend → Option B.Backend → Option B.Backend → Outcome B.BoundContract
    bind_block_hash_publisher addr caller transactor filterer = do
      parsed ← meta.get_abi
      abi ← deref parsed
      ok (B.new_bound_contract addr abi caller transactor filterer)

    unfoldable pub new_block_hash_publisher : Address → B.Backend → Outcome BlockHashPublisher
    new_block_hash_publisher addr backend = do
      contract ← bind_block_hash_publisher addr (some backend) (some backend) (some backend)
      ok (whole contract)

    unfoldable pub new_block_hash_publisher_caller :
        Address → B.Backend → Outcome BlockHashPublisherCaller
    new_block_hash_publisher_caller addr caller = do
      contract ← bind_block_hash_publisher addr (some caller) none none
      ok (record { contract = contract })

    unfoldable pub new_block_hash_publisher_transactor :
        Address → B.Backend → Outcome BlockHashPublisherTransactor
    new_block_hash_publisher_transactor addr transactor = do
      contract ← bind_block_hash_publisher addr none (some transactor) none
      ok (record { contract = contract })

    unfoldable pub new_block_hash_publisher_filterer :
        Address → B.Backend → Outcome BlockHashPublisherFilterer
    new_block_hash_publisher_filterer addr filterer = do
      contract ← bind_block_hash_publisher addr none none (some filterer)
      ok (record { contract = contract })
