-- ===== src/Testnet.antt =====
-- tests/testnet/network.go: the network that the suite finds in its environment. `TestnetLib` is a parameter for
-- the operating system, the packages ids, common, crypto and ethclient, and the generated bindings.
pub mod Environment
pub mod Delivery
pub mod Relay
use teleporter.Base.{ℕ, ℤ, List, Bool, Outcome}
use teleporter.Text.{Text}
use teleporter.Bindings.Types.{Address, Hash, Log, TeleporterMessengerSendCrossChainMessage}
use teleporter.Suite.Wait.{Receipt}

-- `subnetevminterfaces.FilterQuery`, as far as the program fills it.
pub record FilterQuery : Type 0 where
  pub from_block : ℤ
  pub addresses : List Address
  pub topics : List (List Hash)

pub record TestnetLib : Type 1 where
  pub Client : Type 0
  pub Messenger : Type 0
  pub Key : Type 0
  pub ContractAbi : Type 0
  -- `os.Getenv`, `ids.FromString`, `ethclient.Dial` and `ChainID` of a client
  pub getenv : Text → Text
  pub id_from_string : Text → Outcome Hash
  pub dial : Text → Outcome Client
  pub chain_id : Client → Outcome ℤ
  -- `common.HexToAddress`, `crypto.HexToECDSA`
  pub hex_to_address : Text → Address
  pub hex_to_ecdsa : Text → Outcome Key
  -- `teleportermessenger.NewTeleporterMessenger`, and what is called on its result; the ℕ counts the calls
  pub new_teleporter_messenger : Address → Client → Outcome Messenger
  pub message_received : Messenger → ℕ → Hash → ℤ → Outcome Bool
  pub parse_send_cross_chain_message :
      Messenger → Log → Outcome TeleporterMessengerSendCrossChainMessage
  -- `TeleporterMessengerMetaData.GetAbi()`, and `abi.Events[name].ID`
  pub get_abi : Outcome ContractAbi
  pub event_id : ContractAbi → Text → Hash
  -- the calls of the client
  pub block_number : Client → Outcome ℕ
  pub filter_logs : Client → FilterQuery → Outcome (List Log)
  pub transaction_receipt : Client → Hash → Outcome Receipt

module _ (T : TestnetLib) where
  open T use {Client, Messenger, Key}

  -- `interfaces.SubnetTestInfo`
  pub record SubnetInfo : Type 0 where
    pub subnet_id : Hash
    pub blockchain_id : Hash
    pub node_uris : List Text
    pub rpc_client : Client
    pub ws_client : Client
    pub evm_chain_id : ℤ
    pub teleporter_registry_address : Address
    pub teleporter_messenger : Messenger

  -- `testNetwork`
  pub record TestNetwork : Type 0 where
    pub teleporter_contract_address : Address
    pub subnets : List SubnetInfo
    pub funded_address : Address
    pub funded_key : Key
