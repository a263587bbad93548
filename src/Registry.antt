-- ===== src/Registry.antt =====
-- abi-bindings/go/Teleporter/upgrades/TeleporterRegistry/TeleporterRegistry.go: the generated binding of TeleporterRegistry.
pub mod Binding
pub mod Raw
pub mod Caller
pub mod Transactor
pub mod Session
pub mod CallerSession
pub mod TransactorSession
pub mod AddProtocolVersion
pub mod LatestVersionUpdated
