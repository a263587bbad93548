-- ===== src/Local/Values/Laws.antt =====
-- tests/local/network.go: what holds of the subnets' values after they are set again.
use teleporter.Base.{
  ℕ, ◌==◌, ◌≡◌, ◌≢◌, refl, ◌∙◌, sym, ap, List, [], ◌∷◌, ◌++◌, map, Option, none, some, arith,
  Bool-cases, inl, inr, true, false,
}
use teleporter.Base.{ℤ, ok, >>=-eq-ok, >>=-or_panic, ok-injective}
use mathlib.Core.Path.{subst}
use teleporter.Text.{Text}
use teleporter.Bindings.Types.{Address, Hash}
use teleporter.Suite.Uri.{http_to_websocket_uri, http_to_rpc_uri}
use teleporter.Local.{LocalLib, LocalSubnetInfo, LocalNetwork}
use teleporter.Local.Values.{
  assign, info_uri, uris_of, first_uri, present, updated, set_subnet_values, set_all,
  set_all_subnet_values, add_subnet_validators,
}

eq_of_test : (a b : ℕ) → (a == b) ≡ true → a ≡ b
eq_of_test a b h = ground arith

ne_of_test : (a b : ℕ) → (a == b) ≡ false → a ≢ b
ne_of_test a b h = ground arith

assign_same : {A : Type 0} (m : Hash → A) (key : Hash) (value : A) → assign m key value key ≡ value
unfolding assign
assign_same m key value = ground arith

assign_other :
    {A : Type 0} (m : Hash → A) (key k : Hash) (value : A) → k ≢ key → assign m key value k ≡ m k
unfolding assign
assign_other m key k value h = ground arith

info_uri-eq-ok : (o : Option Text) {uri : Text} → info_uri o ≡ ok uri → o ≡ some uri
unfolding info_uri
info_uri-eq-ok none h = cc
info_uri-eq-ok (some x) h = cc

first_uri-eq-ok :
    (uris : List Text) {uri : Text}
    → first_uri uris ≡ ok uri
    → (rest : List Text) × (uris ≡ uri ∷ rest)
unfolding first_uri
first_uri-eq-ok [] h = cc
first_uri-eq-ok (x ∷ xs) h = (xs, ap (λ y. y ∷ xs) (ok-injective h))

uris_of-eq-ok :
    (node_infos : Text → Option Text) (names : List Text) {uris : List Text}
    → uris_of node_infos names ≡ ok uris
    → map node_infos names ≡ map some uris
unfolding uris_of
uris_of-eq-ok node_infos [] h = ap (map some) (ok-injective h)
uris_of-eq-ok node_infos (name ∷ names) h =
    let (uri, found, h1) = >>=-eq-ok (info_uri (node_infos name)) _ h in
    let (uris, rest, h2) = >>=-eq-ok (uris_of node_infos names) _ h1 in
    let here = info_uri-eq-ok (node_infos name) found in
    subst (λ us. map node_infos (name ∷ names) ≡ map some us) (ok-injective h2)
      (ap (λ o. o ∷ map node_infos names) here
        ∙ ap (λ us. some uri ∷ us) (uris_of-eq-ok node_infos names rest))

present-eq-ok : {A : Type 0} (o : Option A) {a : A} → present o ≡ ok a → o ≡ some a
unfolding present
present-eq-ok none h = cc
present-eq-ok (some a) h = cc

module _ (L : LocalLib) where
  -- The values are those of the runner: the subnet's blockchain, and the URIs of its nodes in order, behind the first of
  -- which the two clients are.
  abbrev pub AreValues : List Text → Hash → LocalSubnetInfo L → Type 0
  AreValues names id info =
      (node_infos : Text → Option Text) × (uri : Text) × (uris : List Text) × (info.subnet_id ≡ id)
      × (L.get_subnet id ≡ some info.blockchain_id)
      × (L.status ≡ ok node_infos)
      × (info.node_uris ≡ uri ∷ uris)
      × (map node_infos names ≡ map some (uri ∷ uris))
      × (L.dial (http_to_websocket_uri uri (L.id_string info.blockchain_id)) ≡ ok info.ws_client)
      × (L.dial (http_to_rpc_uri uri (L.id_string info.blockchain_id)) ≡ ok info.rpc_client)
      × (L.chain_id info.rpc_client ≡ ok info.evm_chain_id)

  abbrev pub HasValues : LocalNetwork L → Hash → Type 0
  HasValues n id =
      (info : LocalSubnetInfo L) × (n.subnets_info id ≡ some info)
      × AreValues (n.subnet_node_names id) id info

  updated-AreValues :
      (o : Option (LocalSubnetInfo L)) (names : List Text) (id blockchain_id : Hash)
      (node_infos : Text → Option Text) (uri : Text) (uris : List Text)
      (ws_client rpc_client : L.Client) (evm_chain_id : ℤ)
      → L.get_subnet id ≡ some blockchain_id
      → L.status ≡ ok node_infos
      → map node_infos names ≡ map some (uri ∷ uris)
      → L.dial (http_to_websocket_uri uri (L.id_string blockchain_id)) ≡ ok ws_client
      → L.dial (http_to_rpc_uri uri (L.id_string blockchain_id)) ≡ ok rpc_client
      → L.chain_id rpc_client ≡ ok evm_chain_id
      → AreValues names id
          (updated L o id blockchain_id (uri ∷ uris) ws_client rpc_client evm_chain_id)
  unfolding updated
  updated-AreValues none names id b node_infos uri uris ws rpc chain got st mapped w r c =
      (node_infos, uri, uris, refl, got, st, refl, mapped, w, r, c)
  updated-AreValues (some info) names id b node_infos uri uris ws rpc chain got st mapped w r c =
      (node_infos, uri, uris, refl, got, st, refl, mapped, w, r, c)

  -- What the deployments have set.
  abbrev pub contracts : Option (LocalSubnetInfo L) → Option Address × Option L.Messenger
  contracts none = (none, none)
  contracts (some info) = (info.teleporter_registry_address, info.teleporter_messenger)

  updated-contracts :
      (o : Option (LocalSubnetInfo L)) (id blockchain_id : Hash) (uris : List Text)
      (ws_client rpc_client : L.Client) (evm_chain_id : ℤ)
      → contracts (some (updated L o id blockchain_id uris ws_client rpc_client evm_chain_id))
        ≡ contracts o
  unfolding updated
  updated-contracts none id blockchain_id uris ws_client rpc_client evm_chain_id = refl
  updated-contracts (some info) id blockchain_id uris ws_client rpc_client evm_chain_id = refl

  -- The second state has the values of the subnet, and is otherwise as the first.
  abbrev Resets : Hash → LocalNetwork L → LocalNetwork L → Type 0
  Resets id n n' =
      HasValues n' id
      × (n'.subnet_node_names ≡ n.subnet_node_names)
      × ((k : Hash) → k ≢ id → n'.subnets_info k ≡ n.subnets_info k)
      × ((k : Hash) → contracts (n'.subnets_info k) ≡ contracts (n.subnets_info k))

  set_subnet_values_ok :
      (id : Hash) (n : LocalNetwork L) {n' : LocalNetwork L}
      → set_subnet_values L id n ≡ ok n'
      → Resets id n n'
  unfolding set_subnet_values
  set_subnet_values_ok id n h =
      let old = n.subnets_info id in
      let (b, got, h1) = >>=-eq-ok (present (L.get_subnet id)) _ h in
      let (node_infos, st, h2) = >>=-or_panic _ L.status _ h1 in
      let (all, listed, h3) = >>=-eq-ok (uris_of node_infos (n.subnet_node_names id)) _ h2 in
      let (uri, first, h4) = >>=-eq-ok (first_uri all) _ h3 in
      let (ws, w, h5) = >>=-or_panic _ (L.dial (http_to_websocket_uri uri (L.id_string b))) _ h4 in
      let (rpc, r, h6) = >>=-or_panic _ (L.dial (http_to_rpc_uri uri (L.id_string b))) _ h5 in
      let (chain, c, h7) = >>=-or_panic _ (L.chain_id rpc) _ h6 in
      let (uris, all_eq) = first_uri-eq-ok all first in
      let mapped =
        subst (λ us. map node_infos (n.subnet_node_names id) ≡ map some us) all_eq
          (uris_of-eq-ok node_infos (n.subnet_node_names id) listed) in
      let values =
        subst (λ us. AreValues (n.subnet_node_names id) id (updated L old id b us ws rpc chain))
          (sym all_eq)
          (updated-AreValues old (n.subnet_node_names id) id b node_infos uri uris ws rpc chain
            (present-eq-ok _ got) st mapped w r c) in
      let info = updated L old id b all ws rpc chain in
      subst (Resets id n) (ok-injective h7) (
        (info, assign_same n.subnets_info id (some info), values),
        refl,
        (λ k other. assign_other n.subnets_info id k (some info) other),
        λ k. elim (Bool-cases (k == id)) [
          | inl here ↦
              unfold assign in
              rw (here) (
                updated-contracts old id b all ws rpc chain
                ∙ ap (λ i. contracts (n.subnets_info i)) (sym (eq_of_test k id here)))
          | inr away ↦ unfold assign in rw (away)
        ],
      )

  -- Values that a subnet has stay, or are set anew, when those of another one are set.
  Resets-HasValues :
      (id k : Hash) (n n' : LocalNetwork L) → Resets id n n' → HasValues n k → HasValues n' k
  Resets-HasValues id k n n' (set, same_names, others, kept) (info, found, values) =
      elim (Bool-cases (k == id)) [
        | inl here ↦ subst (HasValues n') (sym (eq_of_test k id here)) set
        | inr away ↦ (
          info,
          others k (λ e. ne_of_test k id away e) ∙ found,
          subst (λ names. AreValues (names k) k info) (sym same_names) values,
        )
      ]

  -- The second state has the values of three subnets, and the names and the contracts of the first.
  abbrev AllSet : Hash → Hash → Hash → LocalNetwork L → LocalNetwork L → Type 0
  AllSet a b c n n' =
      HasValues n' a
      × HasValues n' b
      × HasValues n' c
      × (n'.subnet_node_names ≡ n.subnet_node_names)
      × ((k : Hash) → contracts (n'.subnets_info k) ≡ contracts (n.subnets_info k))

  set_three_ok :
      (a b c : Hash) (n : LocalNetwork L) {n' : LocalNetwork L}
      → set_all L (a ∷ b ∷ c ∷ []) n ≡ ok n'
      → AllSet a b c n n'
  unfolding set_all
  set_three_ok a b c n {n'} h =
      let m0 = record n { subnet_a_id = a } in
      let (n1, s1, h1) = >>=-eq-ok (set_subnet_values L a m0) _ h in
      let m1 = record n1 { subnet_b_id = b } in
      let (n2, s2, h2) = >>=-eq-ok (set_subnet_values L b m1) _ h1 in
      let m2 = record n2 { subnet_c_id = c } in
      let p1 = set_subnet_values_ok a m0 s1 in
      let p2 = set_subnet_values_ok b m1 s2 in
      let p3 = set_subnet_values_ok c m2 {n' = n'} h2 in
      let a2 = Resets-HasValues b a m1 n2 p2 p1.0 in
      (
        Resets-HasValues c a m2 n' p3 a2,
        Resets-HasValues c b m2 n' p3 p2.0,
        p3.0,
        p3.1 ∙ p2.1 ∙ p1.1,
        λ k. p3.3 k ∙ p2.3 k ∙ p1.3 k,
      )

  -- When validators are added to a subnet, the runner was asked for them, their names stand behind those that the subnet
  -- had, other subnets keep their names, the values of all three are set from the runner again, and every
  -- subnet keeps the messenger and the registry that were deployed.
  pub add_subnet_validators_ok :
      (id a b c : Hash) (node_names : List Text) (n n' : LocalNetwork L)
      → L.get_subnets ≡ a ∷ b ∷ c ∷ []
      → add_subnet_validators L id node_names n ≡ ok n'
      → (L.request_subnet_validators id node_names ≡ ok tt)
        × (n'.subnet_node_names id ≡ n.subnet_node_names id ++ node_names)
        × ((k : Hash) → k ≢ id → n'.subnet_node_names k ≡ n.subnet_node_names k)
        × HasValues n' a
        × HasValues n' b
        × HasValues n' c
        × ((k : Hash) → contracts (n'.subnets_info k) ≡ contracts (n.subnets_info k))
  unfolding add_subnet_validators set_all_subnet_values
  add_subnet_validators_ok id a b c node_names n n' three h =
      let names = n.subnet_node_names id ++ node_names in
      let (done, asked, h1) = >>=-or_panic _ (L.request_subnet_validators id node_names) _ h in
      let m = record n { subnet_node_names = assign n.subnet_node_names id names } in
      let (on_a, on_b, on_c, same_names, kept) =
        set_three_ok a b c m {n' = n'} (subst (λ ids. set_all L ids m ≡ ok n') three h1) in
      (
        asked,
        ap (λ f. f id) same_names ∙ assign_same n.subnet_node_names id names,
        (λ k other. ap (λ f. f k) same_names ∙ assign_other n.subnet_node_names id k names other),
        on_a,
        on_b,
        on_c,
        kept,
      )
