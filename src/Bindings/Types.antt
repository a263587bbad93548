-- ===== src/Bindings/Types.antt =====
-- The data of the TeleporterMessenger binding: the structs that abigen makes from the contract.
-- Addresses and 32-byte identifiers are their values as numbers, `*big.Int` is ℤ.
use teleporter.Base.{ℕ, ℤ, List}

abbrev pub Bytes : Type 0
Bytes = List ℕ

abbrev pub Address : Type 0
Address = ℕ

-- `[32]byte`, `ids.ID` and `common.Hash`
abbrev pub Hash : Type 0
Hash = ℕ

pub record TeleporterFeeInfo : Type 0 where
  pub fee_token_address : Address
  pub amount : ℤ

pub record TeleporterMessageReceipt : Type 0 where
  pub received_message_id : ℤ
  pub relayer_reward_address : Address

pub record TeleporterMessage : Type 0 where
  pub message_id : ℤ
  pub sender_address : Address
  pub destination_blockchain_id : Hash
  pub destination_address : Address
  pub required_gas_limit : ℤ
  pub allowed_relayer_addresses : List Address
  pub receipts : List TeleporterMessageReceipt
  pub message : Bytes

pub record TeleporterMessageInput : Type 0 where
  pub destination_blockchain_id : Hash
  pub destination_address : Address
  pub fee_info : TeleporterFeeInfo
  pub required_gas_limit : ℤ
  pub allowed_relayer_addresses : List Address
  pub message : Bytes

-- `types.Log`, as far as the program reads it.
pub record Log : Type 0 where
  pub address : Address
  pub topics : List Hash
  pub log_data : Bytes
  pub tx_hash : Hash

-- The event `SendCrossChainMessage`, parsed.
pub record TeleporterMessengerSendCrossChainMessage : Type 0 where
  pub destination_blockchain_id : Hash
  pub message_id : ℤ
  pub message : TeleporterMessage
  pub fee_info : TeleporterFeeInfo
  pub raw : Log

-- The event `AddFeeAmount`, parsed.
pub record TeleporterMessengerAddFeeAmount : Type 0 where
  pub destination_blockchain_id : Hash
  pub message_id : ℤ
  pub updated_fee_info : TeleporterFeeInfo
  pub raw : Log

-- The other events of the contract, parsed.
pub record TeleporterMessengerMessageExecuted : Type 0 where
  pub origin_blockchain_id : Hash
  pub message_id : ℤ
  pub raw : Log

pub record TeleporterMessengerMessageExecutionFailed : Type 0 where
  pub origin_blockchain_id : Hash
  pub message_id : ℤ
  pub message : TeleporterMessage
  pub raw : Log

pub record TeleporterMessengerReceiveCrossChainMessage : Type 0 where
  pub origin_blockchain_id : Hash
  pub message_id : ℤ
  pub deliverer : Address
  pub reward_redeemer : Address
  pub message : TeleporterMessage
  pub raw : Log

pub record TeleporterMessengerRelayerRewardsRedeemed : Type 0 where
  pub redeemer : Address
  pub asset : Address
  pub amount : ℤ
  pub raw : Log

-- A version of the TeleporterRegistry binding, and its two events, parsed.
pub record ProtocolRegistryEntry : Type 0 where
  pub version : ℤ
  pub protocol_address : Address

pub record TeleporterRegistryAddProtocolVersion : Type 0 where
  pub version : ℤ
  pub protocol_address : Address
  pub raw : Log

pub record TeleporterRegistryLatestVersionUpdated : Type 0 where
  pub old_version : ℤ
  pub new_version : ℤ
  pub raw : Log
