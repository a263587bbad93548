-- ===== src/Local/Deployment.antt =====
-- `deployTeleporterContracts` and `deployTeleporterRegistryContracts` of tests/local/network.go.
pub mod Loop
pub mod Laws
use teleporter.Base.{
  ℕ, ◌*◌, ◌^◌, ◌==◌, ltb, List, [], ◌∷◌, ◌++◌, length, Option, none, some, true, if◌then◌else◌,
}
use teleporter.Base.{ℤ, pos, Outcome, ok, fail, panic, new, ◌>>=◌, ◌>>◌, or_panic, expect}
use teleporter.Text.{Text, codes}
use teleporter.Text.Hex.{encode_to_string}
use teleporter.Bindings.Types.{Bytes, Address, ProtocolRegistryEntry}
use teleporter.Suite.Acceptance.{wait_successful, send_transaction_and_wait_for_acceptance}
use teleporter.Suite.Transactions.{create_native_transfer_transaction}
use teleporter.Suite.Uri.{http_to_rpc_uri}
use teleporter.Local.{LocalSubnetInfo, LocalNetwork}
use teleporter.Local.Values.{assign, first_uri, get_subnets_info}
use teleporter.Local.Relay.{RelayLib, chain_subnet, accepting_subnet}

-- What only the deployments call: the packages rpc and ethclient, and two functions of the generated bindings. The state
-- of the chains goes through the calls that send or wait.
pub record DeploymentLib (R : RelayLib) : Type 1 where
  pub RpcClient : Type 0
  pub Heads : Type 0
  pub dial_context : Text → Outcome RpcClient
  pub subscribe_new_head : R.local.Client → R.accept.World → Outcome Heads
  pub send_raw_transaction : RpcClient → Text → R.accept.World → Outcome R.accept.World
  -- `<-newHeads`
  pub next_head : Heads → R.accept.World → R.accept.World
  pub code_at : R.local.Client → Address → R.accept.World → Outcome Bytes
  pub new_teleporter_messenger : Address → R.local.Client → Outcome R.local.Messenger
  pub deploy_teleporter_registry :
      List ProtocolRegistryEntry
      → R.accept.Opts
      → R.accept.Client
      → R.accept.World
      → Outcome ((Address × R.accept.SignedTx) × R.accept.World)

-- 10 ether
abbrev pub fund_amount : ℤ
fund_amount = pos (10 ^ 18 * 10)

abbrev pub version_1_entries : Address → List ProtocolRegistryEntry
version_1_entries teleporter_address =
    record { version = pos 1; protocol_address = teleporter_address } ∷ []

module _ (R : RelayLib) (D : DeploymentLib R) where
  open R use {local, chain, accept}

  -- `localNetwork` as far as the deployments need it, and the state of the chains.
  pub record Deploying : Type 0 where
    pub network : LocalNetwork local
    pub teleporter_contract_address : Address
    pub world : accept.World

  -- `*n.subnetsInfo[id]`
  unfoldable pub pointed : Option (LocalSubnetInfo local) → Outcome (LocalSubnetInfo local)
  pointed none = panic (new "invalid memory address or nil pointer dereference")
  pointed (some info) = ok info

  -- An assignment to a field of `n.subnetsInfo[subnetInfo.SubnetID]`.
  unfoldable pub update_subnet :
      LocalSubnetInfo local
      → (LocalSubnetInfo local → LocalSubnetInfo local)
      → Deploying
      → Outcome Deploying
  update_subnet subnet_info set s = do
    info ← pointed (s.network.subnets_info subnet_info.subnet_id)
    ok (record s {
      network = record s.network {
        subnets_info = assign s.network.subnets_info subnet_info.subnet_id (some (set info));
      };
    })

  -- The deployer is given the funds for the transaction.
  unfoldable pub fund_deployer :
      chain.Key → Address → LocalSubnetInfo local → accept.World → Outcome accept.World
  fund_deployer funded_key deployer_address subnet_info w = do
    fund_deployer_tx ←
        create_native_transfer_transaction chain (chain_subnet R subnet_info) funded_key
          deployer_address fund_amount
    mined ←
        send_transaction_and_wait_for_acceptance accept (accepting_subnet R subnet_info)
          (R.accept_tx fund_deployer_tx) true w
    ok mined.1

  -- The transaction is sent as it is, and there is code at the address in the next block.
  unfoldable pub send_deployment :
      Bytes → Address → LocalSubnetInfo local → accept.World → Outcome accept.World
  send_deployment transaction_bytes contract_address subnet_info w = do
    uri ← first_uri subnet_info.node_uris
    rpc_client ←
        or_panic "Expect(err)"
          (D.dial_context (http_to_rpc_uri uri (local.id_string subnet_info.blockchain_id)))
    heads ← or_panic "Expect(err)" (D.subscribe_new_head subnet_info.ws_client w)
    w1 ←
        or_panic "Expect(err)"
          (D.send_raw_transaction rpc_client (codes "0x" ++ encode_to_string transaction_bytes) w)
    let w2 = D.next_head heads w1
    code ← or_panic "Expect(err)" (D.code_at subnet_info.rpc_client contract_address w2)
    expect (ltb 2 (length code)) "Expect(len(teleporterCode))"
    ok w2

  -- One turn of the loop of `deployTeleporterContracts`.
  unfoldable pub deploy_teleporter_contract :
      Bytes → Address → chain.Key → LocalSubnetInfo local → Deploying → Outcome Deploying
  deploy_teleporter_contract transaction_bytes deployer_address funded_key subnet_info s = do
    w1 ← fund_deployer funded_key deployer_address subnet_info s.world
    w2 ← send_deployment transaction_bytes s.teleporter_contract_address subnet_info w1
    teleporter_messenger ←
        or_panic "Expect(err)"
          (D.new_teleporter_messenger s.teleporter_contract_address subnet_info.rpc_client)
    update_subnet subnet_info
        (λ info. record info { teleporter_messenger = some teleporter_messenger })
        (record s { world = w2 })

  -- One turn of the loop of `deployTeleporterRegistryContracts`. The address is set before the transaction is waited for.
  unfoldable pub deploy_teleporter_registry_contract :
      Address → accept.Key → LocalSubnetInfo local → Deploying → Outcome Deploying
  deploy_teleporter_registry_contract teleporter_address deployer_key subnet_info s = do
    opts ←
        or_panic "Expect(err)"
          (accept.new_keyed_transactor_with_chain_id deployer_key subnet_info.evm_chain_id)
    deployed ← or_panic "Expect(err)" (
        D.deploy_teleporter_registry (version_1_entries teleporter_address) opts
          (R.accept_client subnet_info.rpc_client) s.world)
    s1 ←
        update_subnet subnet_info
          (λ info. record info { teleporter_registry_address = some deployed.0.0 }) s
    mined ← wait_successful accept (R.accept_client subnet_info.rpc_client) deployed.0.1 deployed.1
    ok (record s1 { world = mined.1 })

  unfoldable pub for_each :
      (LocalSubnetInfo local → Deploying → Outcome Deploying)
      → List (LocalSubnetInfo local)
      → Deploying
      → Outcome Deploying
  for_each turn [] s = ok s
  for_each turn (subnet_info ∷ subnets) s = do s1 ← turn subnet_info s; for_each turn subnets s1

  unfoldable pub deploy_teleporter_contracts :
      Bytes → Address → Address → chain.Key → Deploying → Outcome Deploying
  deploy_teleporter_contracts transaction_bytes deployer_address contract_address funded_key s = do
    subnets ← get_subnets_info local s.network
    for_each (deploy_teleporter_contract transaction_bytes deployer_address funded_key) subnets
        (record s { teleporter_contract_address = contract_address })

  unfoldable pub deploy_teleporter_registry_contracts :
      Address → accept.Key → Deploying → Outcome Deploying
  deploy_teleporter_registry_contracts teleporter_address deployer_key s = do
    subnets ← get_subnets_info local s.network
    for_each (deploy_teleporter_registry_contract teleporter_address deployer_key) subnets s
