-- ===== src/Testnet/Environment/Laws.antt =====
-- tests/testnet/network.go: which environments `NewTestNetwork` takes.
use teleporter.Base.{
  ◌==◌, ◌≡◌, refl, ◌⊎◌, inl, inr, Bool, true, false, [], ◌∷◌, ◌++◌, length, arith,
}
use teleporter.Base.{
  ok, >>=-eq-ok, Bool-cases, ok-injective, take-append-drop, eq_of_text_eq, text_eq, take, drop,
}
use teleporter.Text.{Text, codes}
use teleporter.Bindings.Types.{Address}
use mathlib.Core.Path.{subst, sym, ap, ◌∙◌}
use teleporter.Base.{leb, ◌&&◌}
use teleporter.Testnet.{TestnetLib, SubnetInfo, TestNetwork}
use teleporter.Testnet.Environment.{
  subnet_a_prefix, subnet_b_prefix, subnet_c_prefix, teleporter_contract_address, subnet_id_suffix,
  blockchain_id_suffix, rpc_url_suffix, ws_url_suffix, user_private_key, strip_0x,
  initialize_subnet_info, funded_key_of, new_test_network,
}

and-right : (a : Bool) {b : Bool} → (a && b) ≡ true → b ≡ true
and-right true h = h
and-right false h = cc

strip_0x-cases : (text : Text) → (text ≡ strip_0x text) ⊎ (text ≡ codes "0x" ++ strip_0x text)
unfolding strip_0x
strip_0x-cases text =
    elim (Bool-cases (leb 2 (length text) && text_eq (take 2 text) (codes "0x"))) [
      | inl stripped ↦ inr (
          rw (stripped) (
            sym (take-append-drop 2 text)
            ∙ ap (λ front. front ++ drop 2 text)
                (eq_of_text_eq (take 2 text) (codes "0x")
                  (and-right (leb 2 (length text)) stripped))))
      | inr plain ↦ inl (rw (plain))
    ]

module _ (T : TestnetLib) where
  -- The subnet's fields are read from the variables with that prefix; its messenger is at the given contract.
  abbrev pub IsSubnet : Text → Address → SubnetInfo T → Type 0
  IsSubnet prefix contract_address info =
      (T.id_from_string (T.getenv (prefix ++ codes "_subnet_id")) ≡ ok info.subnet_id)
      × (T.id_from_string (T.getenv (prefix ++ codes "_chain_id")) ≡ ok info.blockchain_id)
      × (info.node_uris ≡ [])
      × (T.dial (T.getenv (prefix ++ codes "_rpc_url")) ≡ ok info.rpc_client)
      × (T.dial (T.getenv (prefix ++ codes "_ws_url")) ≡ ok info.ws_client)
      × (T.chain_id info.rpc_client ≡ ok info.evm_chain_id)
      × (info.teleporter_registry_address
          ≡ T.hex_to_address (T.getenv (prefix ++ codes "_teleporter_registry_address")))
      × (T.new_teleporter_messenger contract_address info.rpc_client ≡ ok info.teleporter_messenger)

  initialize_subnet_info-IsSubnet :
      (prefix : Text) (contract_address : Address) {info : SubnetInfo T}
      → initialize_subnet_info T prefix contract_address ≡ ok info
      → IsSubnet prefix contract_address info
  unfolding initialize_subnet_info
  initialize_subnet_info-IsSubnet prefix contract_address h =
      let (a, ea, h1) = >>=-eq-ok (T.id_from_string (T.getenv (prefix ++ subnet_id_suffix))) _ h in
      let (b, eb, h2) =
        >>=-eq-ok (T.id_from_string (T.getenv (prefix ++ blockchain_id_suffix))) _ h1 in
      let (c, ec, h3) = >>=-eq-ok (T.dial (T.getenv (prefix ++ rpc_url_suffix))) _ h2 in
      let (d, ed, h4) = >>=-eq-ok (T.dial (T.getenv (prefix ++ ws_url_suffix))) _ h3 in
      let (x, ex, h5) = >>=-eq-ok (T.chain_id c) _ h4 in
      let (m, em, h6) = >>=-eq-ok (T.new_teleporter_messenger contract_address c) _ h5 in
      let same = ok-injective h6 in
      subst (IsSubnet prefix contract_address) same (ea, eb, refl, ec, ed, ex, refl, em)

  funded_key_of-eq-ok :
      (text : Text) {key : T.Key}
      → funded_key_of T text ≡ ok key
      → (hex : Text) × ((text ≡ hex) ⊎ (text ≡ codes "0x" ++ hex))
        × (length hex ≡ 64)
        × (T.hex_to_ecdsa hex ≡ ok key)
  unfolding funded_key_of
  funded_key_of-eq-ok text h = elim (Bool-cases (length (strip_0x text) == 64)) [
    | inl fits ↦ (strip_0x text, strip_0x-cases text, ground arith, rw (fits) at h)
    | inr plain ↦ cc (rw (plain) at h)
  ]

  abbrev pub IsNetwork : TestNetwork T → Type 0
  IsNetwork network =
      (network.teleporter_contract_address
        ≡ T.hex_to_address (T.getenv (codes "teleporter_contract_address")))
      × (network.funded_address ≡ T.hex_to_address (T.getenv (codes "user_address")))
      × ((a b c : SubnetInfo T) × (network.subnets ≡ a ∷ b ∷ c ∷ [])
          × IsSubnet (codes "subnet_a") network.teleporter_contract_address a
          × IsSubnet (codes "subnet_b") network.teleporter_contract_address b
          × IsSubnet (codes "subnet_c") network.teleporter_contract_address c)
      × ((hex : Text) × ((T.getenv (codes "user_private_key") ≡ hex)
            ⊎ (T.getenv (codes "user_private_key") ≡ codes "0x" ++ hex))
          × (length hex ≡ 64)
          × (T.hex_to_ecdsa hex ≡ ok network.funded_key))

  -- A network is made only of the variables of its environment: the three subnets in order, each from the variables
  -- with its prefix and with a messenger at the one contract address, and a key of 64 digits that may stand behind "0x".
  pub new_test_network_ok :
      (network : TestNetwork T) → new_test_network T ≡ ok network → IsNetwork network
  unfolding new_test_network
  new_test_network_ok network h =
      let at_contract = T.hex_to_address (T.getenv teleporter_contract_address) in
      let (a, ea, h1) = >>=-eq-ok (initialize_subnet_info T subnet_a_prefix at_contract) _ h in
      let (b, eb, h2) = >>=-eq-ok (initialize_subnet_info T subnet_b_prefix at_contract) _ h1 in
      let (c, ec, h3) = >>=-eq-ok (initialize_subnet_info T subnet_c_prefix at_contract) _ h2 in
      let (key, ek, h4) = >>=-eq-ok (funded_key_of T (T.getenv user_private_key)) _ h3 in
      subst IsNetwork (ok-injective h4) (
        refl,
        refl,
        (
          a,
          b,
          c,
          refl,
          initialize_subnet_info-IsSubnet subnet_a_prefix at_contract ea,
          initialize_subnet_info-IsSubnet subnet_b_prefix at_contract eb,
          initialize_subnet_info-IsSubnet subnet_c_prefix at_contract ec,
        ),
        funded_key_of-eq-ok (T.getenv user_private_key) ek,
      )
