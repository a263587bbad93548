-- ===== src/Examples/DeploymentRuns.antt =====
-- The deployments of the local network at concrete data.
use teleporter.Base.{ℕ, ◌≡◌, refl, List, [], ◌∷◌, Option, none, some, ok}
use teleporter.Text.{codes}
use teleporter.Bindings.Types.{Hash}
use teleporter.Local.{LocalSubnetInfo, LocalNetwork}
use teleporter.Local.Values.{assign, first_uri, get_subnets_info, present}
use teleporter.Local.Relay.{chain_subnet, accepting_subnet}
use teleporter.Local.Deployment.{
  DeploymentLib, Deploying, pointed, update_subnet, fund_deployer, send_deployment,
  deploy_teleporter_contract, deploy_teleporter_registry_contract, for_each,
  deploy_teleporter_contracts, deploy_teleporter_registry_contracts,
}
use teleporter.Local.Deployment.Loop.{Looped}
use teleporter.Local.Deployment.Laws.{
  HasMessenger, HasCode, without_messenger, HasRegistry, without_registry,
  deploy_teleporter_contracts_ok, deploy_teleporter_registry_contracts_ok,
}
use teleporter.Suite.Acceptance.{wait_successful, send_transaction_and_wait_for_acceptance}
use teleporter.Suite.Transactions.{
  create_native_transfer_transaction, native_transfer_tx, calculate_tx_params, sign_transaction,
}
use teleporter.Examples.LocalRuns.{toy_local, info_of}
use teleporter.Examples.RelayRuns.{toy_relay}

abbrev toy_deployment : DeploymentLib toy_relay
toy_deployment = record {
  RpcClient = Unit {0};
  Heads = Unit {0};
  dial_context = λ _. ok tt;
  subscribe_new_head = λ _ _. ok tt;
  send_raw_transaction = λ _ _ w. ok w;
  next_head = λ _ w. w;
  code_at = λ _ _ _. ok (1 ∷ 2 ∷ 3 ∷ []);
  new_teleporter_messenger = λ _ _. ok tt;
  deploy_teleporter_registry = λ _ _ _ w. ok ((0x40, 4), w);
}

abbrev subnet : Hash → LocalSubnetInfo toy_local
subnet id = info_of id (codes "a" ∷ []) none

abbrev network : (Hash → Option (LocalSubnetInfo toy_local)) → LocalNetwork toy_local
network subnets_info = record {
  subnet_a_id = 1;
  subnet_b_id = 2;
  subnet_c_id = 3;
  subnets_info = subnets_info;
  subnet_node_names = λ _. [];
  closed = [];
}

abbrev state : (Hash → Option (LocalSubnetInfo toy_local)) → ℕ → Deploying toy_relay toy_deployment
state subnets_info contract = record {
  network = network subnets_info;
  teleporter_contract_address = contract;
  world = (0, 0);
}

abbrev fresh : Deploying toy_relay toy_deployment
fresh = state (λ id. some (subnet id)) 0

abbrev with_messenger : Hash → Option (LocalSubnetInfo toy_local)
with_messenger id = some (record (subnet id) { teleporter_messenger = some tt })

abbrev with_registry : Hash → Option (LocalSubnetInfo toy_local)
with_registry id = some (record (subnet id) { teleporter_registry_address = some 0x40 })

abbrev set_three :
    (Hash → Option (LocalSubnetInfo toy_local)) → Hash → Option (LocalSubnetInfo toy_local)
set_three made =
    assign (assign (assign fresh.network.subnets_info 1 (made 1)) 2 (made 2)) 3 (made 3)

abbrev contracts_set : Deploying toy_relay toy_deployment
contracts_set = state (set_three with_messenger) 0x70

abbrev registries_set : Deploying toy_relay toy_deployment
registries_set = state (set_three with_registry) 0

contracts_run :
    deploy_teleporter_contracts toy_relay toy_deployment (1 ∷ []) 9 0x70 7 fresh ≡ ok contracts_set
unfolding deploy_teleporter_contracts get_subnets_info present for_each deploy_teleporter_contract
    fund_deployer send_deployment first_uri update_subnet pointed assign chain_subnet
    accepting_subnet send_transaction_and_wait_for_acceptance create_native_transfer_transaction
    native_transfer_tx calculate_tx_params sign_transaction
contracts_run = refl

registries_run :
    deploy_teleporter_registry_contracts toy_relay toy_deployment 0x70 7 fresh ≡ ok registries_set
unfolding deploy_teleporter_registry_contracts get_subnets_info present for_each
    deploy_teleporter_registry_contract update_subnet pointed assign wait_successful
registries_run = refl

deploy_teleporter_contracts_ok_example :
    (subnets : List (LocalSubnetInfo toy_local)) × (get_subnets_info toy_local fresh.network
      ≡ ok subnets)
    × Looped toy_relay toy_deployment
        (HasMessenger toy_relay toy_deployment 0x70)
        (without_messenger toy_relay toy_deployment 0x70)
        (HasCode toy_relay toy_deployment 0x70)
        subnets
        fresh
        contracts_set
        0x70
deploy_teleporter_contracts_ok_example =
    deploy_teleporter_contracts_ok toy_relay toy_deployment (1 ∷ []) 9 0x70 7 fresh contracts_set
      contracts_run

deploy_teleporter_registry_contracts_ok_example :
    (subnets : List (LocalSubnetInfo toy_local)) × (get_subnets_info toy_local fresh.network
      ≡ ok subnets)
    × Looped toy_relay toy_deployment
        (HasRegistry toy_relay toy_deployment 0x70)
        (without_registry toy_relay toy_deployment 0x70)
        (λ x. Unit {0})
        subnets
        fresh
        registries_set
        0
deploy_teleporter_registry_contracts_ok_example =
    deploy_teleporter_registry_contracts_ok toy_relay toy_deployment 0x70 7 fresh registries_set
      registries_run
