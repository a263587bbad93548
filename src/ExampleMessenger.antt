-- ===== src/ExampleMessenger.antt =====
-- abi-bindings/go/CrossChainApplications/ExampleMessenger/ExampleCrossChainMessenger/ExampleCrossChainMessenger.go:
-- the generated binding of ExampleCrossChainMessenger.
pub mod Types
pub mod Binding
pub mod Raw
pub mod Caller
pub mod Transactor
pub mod Session
pub mod CallerSession
pub mod TransactorSession
pub mod MinTeleporterVersionUpdated
pub mod OwnershipTransferred
pub mod ReceiveMessage
pub mod SendMessage
pub mod TeleporterAddressPaused
pub mod TeleporterAddressUnpaused
