-- ===== src/Testnet/Environment.antt =====
-- `initializeSubnetInfo` and `NewTestNetwork` of tests/testnet/network.go.
pub mod Laws
use teleporter.Base.{
  ℕ, ◌==◌, leb, ◌&&◌, List, [], ◌∷◌, ◌++◌, if◌then◌else◌, text_eq, length, drop, take,
}
use teleporter.Base.{Outcome, ok, fail, panic, new, ◌>>=◌}
use teleporter.Text.{Text, codes}
use teleporter.Bindings.Types.{Address}
use teleporter.Testnet.{TestnetLib, SubnetInfo, TestNetwork}

abbrev pub subnet_a_prefix : Text
subnet_a_prefix = codes "subnet_a"

abbrev pub subnet_b_prefix : Text
subnet_b_prefix = codes "subnet_b"

abbrev pub subnet_c_prefix : Text
subnet_c_prefix = codes "subnet_c"

abbrev pub teleporter_contract_address : Text
teleporter_contract_address = codes "teleporter_contract_address"

abbrev pub teleporter_registry_address_suffix : Text
teleporter_registry_address_suffix = codes "_teleporter_registry_address"

abbrev pub subnet_id_suffix : Text
subnet_id_suffix = codes "_subnet_id"

abbrev pub blockchain_id_suffix : Text
blockchain_id_suffix = codes "_chain_id"

abbrev pub rpc_url_suffix : Text
rpc_url_suffix = codes "_rpc_url"

abbrev pub ws_url_suffix : Text
ws_url_suffix = codes "_ws_url"

abbrev pub user_address : Text
user_address = codes "user_address"

abbrev pub user_private_key : Text
user_private_key = codes "user_private_key"

abbrev pub private_key_hex_length : ℕ
private_key_hex_length = 64

-- `if len(fundedKeyStr) >= 2 && fundedKeyStr[0:2] == "0x" { … }`
unfoldable pub strip_0x : Text → Text
strip_0x funded_key =
    if leb 2 (length funded_key) && text_eq (take 2 funded_key) (codes "0x")
    then drop 2 funded_key
    else funded_key

module _ (T : TestnetLib) where
  unfoldable pub initialize_subnet_info : Text → Address → Outcome (SubnetInfo T)
  initialize_subnet_info prefix contract_address = do
    subnet_id ← T.id_from_string (T.getenv (prefix ++ subnet_id_suffix))
    blockchain_id ← T.id_from_string (T.getenv (prefix ++ blockchain_id_suffix))
    rpc_client ← T.dial (T.getenv (prefix ++ rpc_url_suffix))
    ws_client ← T.dial (T.getenv (prefix ++ ws_url_suffix))
    evm_chain_id ← T.chain_id rpc_client
    let registry_address = T.getenv (prefix ++ teleporter_registry_address_suffix)
    messenger ← T.new_teleporter_messenger contract_address rpc_client
    ok (record {
      subnet_id = subnet_id;
      blockchain_id = blockchain_id;
      node_uris = [];
      rpc_client = rpc_client;
      ws_client = ws_client;
      evm_chain_id = evm_chain_id;
      teleporter_registry_address = T.hex_to_address registry_address;
      teleporter_messenger = messenger;
    })

  -- The key of the funded account, from its text.
  unfoldable pub funded_key_of : Text → Outcome T.Key
  funded_key_of funded_key =
      if length (strip_0x funded_key) == private_key_hex_length
      then T.hex_to_ecdsa (strip_0x funded_key)
      else fail (new "invalid private key string")

  unfoldable pub new_test_network : Outcome (TestNetwork T)
  new_test_network = do
    let contract_address = T.hex_to_address (T.getenv teleporter_contract_address)
    subnet_a ← initialize_subnet_info subnet_a_prefix contract_address
    subnet_b ← initialize_subnet_info subnet_b_prefix contract_address
    subnet_c ← initialize_subnet_info subnet_c_prefix contract_address
    let funded_address = T.getenv user_address
    funded_key ← funded_key_of (T.getenv user_private_key)
    ok (record {
      teleporter_contract_address = contract_address;
      subnets = subnet_a ∷ subnet_b ∷ subnet_c ∷ [];
      funded_address = T.hex_to_address funded_address;
      funded_key = funded_key;
    })
