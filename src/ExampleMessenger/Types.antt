-- ===== src/ExampleMessenger/Types.antt =====
-- abi-bindings/go/CrossChainApplications/ExampleMessenger/ExampleCrossChainMessenger/ExampleCrossChainMessenger.go:
-- the events.
use teleporter.Base.{ℤ}
use teleporter.Bindings.Types.{Address, Hash, Log}
use teleporter.Text.{Text}

-- The event MinTeleporterVersionUpdated, with its log as it came.
pub record ExampleCrossChainMessengerMinTeleporterVersionUpdated : Type 0 where
  pub old_min_teleporter_version : ℤ
  pub new_min_teleporter_version : ℤ
  pub raw : Log

-- The event OwnershipTransferred, with its log as it came.
pub record ExampleCrossChainMessengerOwnershipTransferred : Type 0 where
  pub previous_owner : Address
  pub new_owner : Address
  pub raw : Log

-- The event ReceiveMessage, with its log as it came.
pub record ExampleCrossChainMessengerReceiveMessage : Type 0 where
  pub origin_blockchain_id : Hash
  pub origin_sender_address : Address
  pub message : Text
  pub raw : Log

-- The event SendMessage, with its log as it came.
pub record ExampleCrossChainMessengerSendMessage : Type 0 where
  pub destination_blockchain_id : Hash
  pub destination_address : Address
  pub fee_token_address : Address
  pub fee_amount : ℤ
  pub required_gas_limit : ℤ
  pub message : Text
  pub raw : Log

-- The event TeleporterAddressPaused, with its log as it came.
pub record ExampleCrossChainMessengerTeleporterAddressPaused : Type 0 where
  pub teleporter_address : Address
  pub raw : Log

-- The event TeleporterAddressUnpaused, with its log as it came.
pub record ExampleCrossChainMessengerTeleporterAddressUnpaused : Type 0 where
  pub teleporter_address : Address
  pub raw : Log
