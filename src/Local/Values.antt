-- ===== src/Local/Values.antt =====
-- `setSubnetValues`, `setAllSubnetValues`, `GetSubnetsInfo` and `AddSubnetValidators` of tests/local/network.go.
pub mod Laws
use teleporter.Base.{◌==◌, List, [], ◌∷◌, ◌++◌, Option, none, some, if◌then◌else◌}
use teleporter.Base.{ℤ, Outcome, ok, fail, panic, new, ◌>>=◌, or_panic}
use teleporter.Text.{Text}
use teleporter.Bindings.Types.{Hash}
use teleporter.Suite.Uri.{http_to_websocket_uri, http_to_rpc_uri}
use teleporter.Local.{LocalLib, LocalSubnetInfo, LocalNetwork}

-- The assignment `m[key] = value`.
unfoldable pub assign {ℓ} : {A : Type ℓ} → (Hash → A) → Hash → A → Hash → A
assign m key value k = if k == key then value else m k

-- `nodeInfos[nodeName].Uri`; a name without an info is a nil pointer.
unfoldable pub info_uri : Option Text → Outcome Text
info_uri none = panic (new "nil pointer dereference")
info_uri (some uri) = ok uri

-- The loop over the node names.
unfoldable pub uris_of : (Text → Option Text) → List Text → Outcome (List Text)
uris_of node_infos [] = ok []
uris_of node_infos (name ∷ names) = do
  uri ← info_uri (node_infos name)
  uris ← uris_of node_infos names
  ok (uri ∷ uris)

-- `chainNodeURIs[0]`
unfoldable pub first_uri : List Text → Outcome Text
first_uri [] = panic (new "index out of range [0] with length 0")
first_uri (uri ∷ uris) = ok uri

-- A value that must be there.
unfoldable pub present {ℓ} : {A : Type ℓ} → Option A → Outcome A
present none = panic (new "Expect(ok).Should(BeTrue())")
present (some a) = ok a

module _ (L : LocalLib) where
  -- The clients of a subnet that is in the map already.
  unfoldable pub old_clients : Option (LocalSubnetInfo L) → List L.Client
  old_clients none = []
  old_clients (some info) = info.ws_client ∷ info.rpc_client ∷ []

  -- The fields that are assigned, in a new struct or in the one of the map.
  unfoldable pub updated :
      Option (LocalSubnetInfo L)
      → Hash
      → Hash
      → List Text
      → L.Client
      → L.Client
      → ℤ
      → LocalSubnetInfo L
  updated none subnet_id blockchain_id uris ws_client rpc_client evm_chain_id = record {
    subnet_id = subnet_id;
    blockchain_id = blockchain_id;
    node_uris = uris;
    ws_client = ws_client;
    rpc_client = rpc_client;
    evm_chain_id = evm_chain_id;
    teleporter_registry_address = none;
    teleporter_messenger = none;
  }
  updated (some info) subnet_id blockchain_id uris ws_client rpc_client evm_chain_id = record info {
    subnet_id = subnet_id;
    blockchain_id = blockchain_id;
    node_uris = uris;
    ws_client = ws_client;
    rpc_client = rpc_client;
    evm_chain_id = evm_chain_id;
  }

  unfoldable pub set_subnet_values : Hash → LocalNetwork L → Outcome (LocalNetwork L)
  set_subnet_values subnet_id n = do
    blockchain_id ← present (L.get_subnet subnet_id)
    node_infos ← or_panic "Expect(err)" L.status
    uris ← uris_of node_infos (n.subnet_node_names subnet_id)
    uri ← first_uri uris
    ws_client ←
        or_panic "Expect(err)" (L.dial (http_to_websocket_uri uri (L.id_string blockchain_id)))
    rpc_client ← or_panic "Expect(err)" (L.dial (http_to_rpc_uri uri (L.id_string blockchain_id)))
    evm_chain_id ← or_panic "Expect(err)" (L.chain_id rpc_client)
    ok (record n {
      subnets_info = assign n.subnets_info subnet_id (
          some (
            updated (n.subnets_info subnet_id) subnet_id blockchain_id uris ws_client rpc_client
              evm_chain_id));
      closed = n.closed ++ old_clients (n.subnets_info subnet_id);
    })

  -- `setAllSubnetValues`, given the subnets of the manager.
  unfoldable pub set_all : List Hash → LocalNetwork L → Outcome (LocalNetwork L)
  set_all (a ∷ b ∷ c ∷ []) n = do
    n1 ← set_subnet_values a (record n { subnet_a_id = a })
    n2 ← set_subnet_values b (record n1 { subnet_b_id = b })
    set_subnet_values c (record n2 { subnet_c_id = c })
  set_all _ n = panic (new "Expect(len(subnetIDs)).Should(Equal(3))")

  unfoldable pub set_all_subnet_values : LocalNetwork L → Outcome (LocalNetwork L)
  set_all_subnet_values n = set_all L.get_subnets n

  unfoldable pub add_subnet_validators :
      Hash → List Text → LocalNetwork L → Outcome (LocalNetwork L)
  add_subnet_validators subnet_id node_names n = do
    _ ← or_panic "Expect(err)" (L.request_subnet_validators subnet_id node_names)
    set_all_subnet_values (record n {
      subnet_node_names =
          assign n.subnet_node_names subnet_id (n.subnet_node_names subnet_id ++ node_names);
    })

  -- `GetSubnetsInfo`; a subnet that is not in the map is a nil pointer.
  unfoldable pub get_subnets_info : LocalNetwork L → Outcome (List (LocalSubnetInfo L))
  get_subnets_info n = do
    a ← present (n.subnets_info n.subnet_a_id)
    b ← present (n.subnets_info n.subnet_b_id)
    c ← present (n.subnets_info n.subnet_c_id)
    ok (a ∷ b ∷ c ∷ [])
