-- ===== src/Local.antt =====
-- tests/local: the local network of the suite. `LocalLib` is a parameter for the network runner, its client and
-- the package ethclient.
pub mod Values
pub mod BlockWait
pub mod Warp
pub mod Relay
pub mod Deployment
use teleporter.Base.{ℕ, ℤ, List, Option, Outcome}
use teleporter.Text.{Text}
use teleporter.Bindings.Types.{Address, Hash}

pub record LocalLib : Type 1 where
  pub Client : Type 0
  pub Messenger : Type 0
  -- the manager's blockchain of a subnet and its list of subnets, and `ids.ID.String`
  pub get_subnet : Hash → Option Hash
  pub get_subnets : List Hash
  pub id_string : Hash → Text
  -- the node infos of the runner's status, from a name to a URI, and its call to add validators
  pub status : Outcome (Text → Option Text)
  pub request_subnet_validators : Hash → List Text → Outcome (Unit {0})
  -- `ethclient.Dial`, and `ChainID` of a client; in the n-th of its calls, a client's latest block
  pub dial : Text → Outcome Client
  pub chain_id : Client → Outcome ℤ
  pub block_number : Client → ℕ → Outcome ℕ

module _ (L : LocalLib) where
  -- `interfaces.SubnetTestInfo`: the fields that are `none` are not set yet.
  pub record LocalSubnetInfo : Type 0 where
    pub subnet_id : Hash
    pub blockchain_id : Hash
    pub node_uris : List Text
    pub ws_client : L.Client
    pub rpc_client : L.Client
    pub evm_chain_id : ℤ
    pub teleporter_registry_address : Option Address
    pub teleporter_messenger : Option L.Messenger

  -- `localNetwork`, as far as the subnets' values need it, with the clients that were closed.
  pub record LocalNetwork : Type 0 where
    pub subnet_a_id : Hash
    pub subnet_b_id : Hash
    pub subnet_c_id : Hash
    pub subnets_info : Hash → Option LocalSubnetInfo
    pub subnet_node_names : Hash → List Text
    pub closed : List L.Client
