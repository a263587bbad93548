-- ===== src/Local/Deployment/Laws.antt =====
-- The deployments of tests/local/network.go: what the network holds when they come back.
use mathlib.Core.Path.{subst}
use teleporter.Base.{
  ◌<◌, ◌≡◌, refl, sym, ap, ◌∙◌, List, length, Option, none, some, ok, ltb, ltb→lt, >>=-eq-ok,
  >>=-or_panic, >>-expect, ok-injective,
}
use teleporter.Bindings.Types.{Bytes, Address}
use teleporter.Suite.Acceptance.{wait_successful}
use teleporter.Suite.Acceptance.Laws.{wait_successful_ok}
use teleporter.Suite.Wait.{Receipt}
use teleporter.Local.Values.{first_uri, get_subnets_info}
use teleporter.Local.Relay.{RelayLib}
use teleporter.Local.Deployment.{
  DeploymentLib, Deploying, version_1_entries, pointed, update_subnet, fund_deployer,
  send_deployment, deploy_teleporter_contract, deploy_teleporter_registry_contract,
  deploy_teleporter_contracts, deploy_teleporter_registry_contracts,
}
use teleporter.Local.Deployment.Loop.{Info, Turned, Looped, for_each-Looped}

module _ (R : RelayLib) (D : DeploymentLib R) where
  pointed-eq-ok :
      (o : Option (Info R D)) {info : Info R D} → pointed R D o ≡ ok info → o ≡ some info
  unfolding pointed
  pointed-eq-ok none h = cc
  pointed-eq-ok (some x) h = ap some (ok-injective h)

  -- One assignment to a field of the struct of a subnet.
  update_subnet-Turned :
      (Good : Info R D → Type 0) (strip : Info R D → Info R D) (x : Info R D)
      (set : Info R D → Info R D) (s : Deploying R D) {t : Deploying R D}
      → ((info : Info R D) → Good (set info))
      → ((info : Info R D) → strip (set info) ≡ strip info)
      → update_subnet R D x set s ≡ ok t
      → Turned R D Good strip x s t
  unfolding update_subnet
  update_subnet-Turned Good strip x set s {t} good kept h =
      let (info, e, h1) = >>=-eq-ok (pointed R D (s.network.subnets_info x.subnet_id)) _ h in
      let same = ok-injective h1 in
      record {
        before = info;
        after = set info;
        found = pointed-eq-ok _ e;
        assigned = sym (ap (λ (u : Deploying R D). u.network.subnets_info) same);
        good = good info;
        kept = kept info;
        same_address = sym (ap (λ (u : Deploying R D). u.teleporter_contract_address) same);
      }

  module _ (address : Address) where
    -- The messenger of the binding for the address.
    pub HasMessenger : Info R D → Type 0
    HasMessenger info =
        (messenger : R.local.Messenger) × (client : R.local.Client) × (info.teleporter_messenger
          ≡ some messenger)
        × (D.new_teleporter_messenger address client ≡ ok messenger)

    -- The subnet's client has seen code at the address.
    pub HasCode : Info R D → Type 0
    HasCode x =
        (w : R.accept.World) × (code : Bytes) × (D.code_at x.rpc_client address w ≡ ok code)
        × (2 < length code)

    abbrev pub without_messenger : Info R D → Info R D
    without_messenger info = record info { teleporter_messenger = none }

    send_deployment-HasCode :
        (transaction_bytes : Bytes) (x : Info R D) (w : R.accept.World) {out : R.accept.World}
        → send_deployment R D transaction_bytes address x w ≡ ok out
        → HasCode x
    unfolding send_deployment HasCode
    send_deployment-HasCode transaction_bytes x w {out} h =
        let (uri, e1, h1) = >>=-eq-ok (first_uri x.node_uris) _ h in
        let (rpc, e2, h2) = >>=-or_panic _ (D.dial_context _) _ h1 in
        let (heads, e3, h3) = >>=-or_panic _ (D.subscribe_new_head x.ws_client w) _ h2 in
        let (w1, e4, h4) = >>=-or_panic _ (D.send_raw_transaction rpc _ w) _ h3 in
        let w2 = D.next_head heads w1 in
        let (code, e5, h5) = >>=-or_panic _ (D.code_at x.rpc_client address w2) _ h4 in
        let (long, h6) = >>-expect (ltb 2 (length code)) _ (ok w2) h5 in
        (w2, code, e5, ltb→lt 2 (length code) long)

    contract_turn :
        (transaction_bytes : Bytes) (deployer : Address) (key : R.chain.Key) (x : Info R D)
        (s t : Deploying R D)
        → s.teleporter_contract_address ≡ address
        → deploy_teleporter_contract R D transaction_bytes deployer key x s ≡ ok t
        → Turned R D HasMessenger without_messenger x s t × HasCode x
    unfolding deploy_teleporter_contract HasMessenger
    contract_turn transaction_bytes deployer key x s t at h =
        let (w1, e1, h1) = >>=-eq-ok (fund_deployer R D key deployer x s.world) _ h in
        let (w2, e2, h2) =
          >>=-eq-ok (send_deployment R D transaction_bytes s.teleporter_contract_address x w1) _
            h1 in
        let (m, made, h3) =
          >>=-or_panic _ (D.new_teleporter_messenger s.teleporter_contract_address x.rpc_client) _
            h2 in
        let turned =
          update_subnet-Turned HasMessenger without_messenger x
            (λ info. record info { teleporter_messenger = some m }) (record s { world = w2 })
            {t = t}
            (λ info. (
              m,
              x.rpc_client,
              refl,
              subst (λ a. D.new_teleporter_messenger a x.rpc_client ≡ ok m) at made,
            ))
            (λ info. refl) h3 in
        (
          record {
            before = turned.before;
            after = turned.after;
            found = turned.found;
            assigned = turned.assigned;
            good = turned.good;
            kept = turned.kept;
            same_address = turned.same_address;
          },
          send_deployment-HasCode transaction_bytes x w1
              (subst (λ a. send_deployment R D transaction_bytes a x w1 ≡ ok w2) at e2),
        )

  -- If `deployTeleporterContracts` comes back, the network has the contract's address, each of the three subnets has seen
  -- code at it and has a messenger of the binding for it, and nothing but messengers has changed in the structs of the
  -- network's map.
  pub deploy_teleporter_contracts_ok :
      (transaction_bytes : Bytes) (deployer contract : Address) (key : R.chain.Key)
      (s t : Deploying R D)
      → deploy_teleporter_contracts R D transaction_bytes deployer contract key s ≡ ok t
      → (subnets : List (Info R D)) × (get_subnets_info R.local s.network ≡ ok subnets)
        × Looped R D
            (HasMessenger contract)
            (without_messenger contract)
            (HasCode contract)
            subnets
            s
            t
            contract
  unfolding deploy_teleporter_contracts Looped
  deploy_teleporter_contracts_ok transaction_bytes deployer contract key s t h =
      let (subnets, listed, h1) = >>=-eq-ok (get_subnets_info R.local s.network) _ h in
      (
        subnets,
        listed,
        for_each-Looped R D (HasMessenger contract) (without_messenger contract)
            (deploy_teleporter_contract R D transaction_bytes deployer key) (HasCode contract)
            contract (contract_turn contract transaction_bytes deployer key) subnets
            (record s { teleporter_contract_address = contract }) t refl h1,
      )

  module _ (address : Address) where
    -- A registry with the messenger's address as version 1 was deployed at the address that is set, and its transaction
    -- was mined and succeeded.
    pub HasRegistry : Info R D → Type 0
    HasRegistry info =
        (registry : Address) × (opts : R.accept.Opts) × (client : R.accept.Client)
        × (tx : R.accept.SignedTx) × (w w1 : R.accept.World) × (mined : Receipt × R.accept.World)
        × (info.teleporter_registry_address ≡ some registry)
        × (D.deploy_teleporter_registry (version_1_entries address) opts client w
            ≡ ok ((registry, tx), w1))
        × (R.accept.wait_mined client tx w1 ≡ ok mined)
        × (mined.0.status ≡ 1)

    abbrev pub without_registry : Info R D → Info R D
    without_registry info = record info { teleporter_registry_address = none }

    registry_turn :
        (key : R.accept.Key) (x : Info R D) (s t : Deploying R D)
        → deploy_teleporter_registry_contract R D address key x s ≡ ok t
        → Turned R D HasRegistry without_registry x s t
    unfolding deploy_teleporter_registry_contract HasRegistry
    registry_turn key x s t h =
        let client = R.accept_client x.rpc_client in
        let (opts, e1, h1) =
          >>=-or_panic _ (R.accept.new_keyed_transactor_with_chain_id key x.evm_chain_id) _ h in
        let (deployed, e2, h2) =
          >>=-or_panic _
            (D.deploy_teleporter_registry (version_1_entries address) opts client s.world) _ h1 in
        let (s1, e3, h3) = >>=-eq-ok (update_subnet R D x _ s) _ h2 in
        let (mined, e4, h4) =
          >>=-eq-ok (wait_successful R.accept client deployed.0.1 deployed.1) _ h3 in
        let (waited, successful) = wait_successful_ok R.accept client deployed.0.1 deployed.1 e4 in
        let turned =
          update_subnet-Turned HasRegistry without_registry x
            (λ info. record info { teleporter_registry_address = some deployed.0.0 }) s {t = s1}
            (λ info. (
              deployed.0.0, opts, client, deployed.0.1, s.world, deployed.1, mined, refl, e2,
              waited, successful,
            ))
            (λ info. refl) e3 in
        let same = ok-injective h4 in
        record {
          before = turned.before;
          after = turned.after;
          found = turned.found;
          assigned =
              sym (ap (λ (u : Deploying R D). u.network.subnets_info) same) ∙ turned.assigned;
          good = turned.good;
          kept = turned.kept;
          same_address =
              sym (ap (λ (u : Deploying R D). u.teleporter_contract_address) same)
              ∙ turned.same_address;
        }

  -- If `deployTeleporterRegistryContracts` comes back, then each of the three subnets has the address of a registry that
  -- was deployed with the messenger's address as version 1, in a transaction that was mined and succeeded, and nothing
  -- but registry addresses has changed in the structs of the network's map.
  pub deploy_teleporter_registry_contracts_ok :
      (teleporter_address : Address) (key : R.accept.Key) (s t : Deploying R D)
      → deploy_teleporter_registry_contracts R D teleporter_address key s ≡ ok t
      → (subnets : List (Info R D)) × (get_subnets_info R.local s.network ≡ ok subnets)
        × Looped R D
            (HasRegistry teleporter_address)
            (without_registry teleporter_address)
            (λ x. Unit {0})
            subnets
            s
            t
            s.teleporter_contract_address
  unfolding deploy_teleporter_registry_contracts
  deploy_teleporter_registry_contracts_ok teleporter_address key s t h =
      let (subnets, listed, h1) = >>=-eq-ok (get_subnets_info R.local s.network) _ h in
      (
        subnets,
        listed,
        for_each-Looped R D (HasRegistry teleporter_address) (without_registry teleporter_address)
            (deploy_teleporter_registry_contract R D teleporter_address key) (λ x. Unit {0})
            s.teleporter_contract_address
            (λ x s1 t1 at turned. (registry_turn teleporter_address key x s1 t1 turned, tt)) subnets
            s t refl h1,
      )
