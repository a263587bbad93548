-- ===== src/Messenger.antt =====
-- abi-bindings/go/Teleporter/TeleporterMessenger/TeleporterMessenger.go: the generated binding of TeleporterMessenger.
pub mod Binding
pub mod Raw
pub mod Caller
pub mod Transactor
pub mod Session
pub mod CallerSession
pub mod TransactorSession
pub mod AddFeeAmount
pub mod MessageExecuted
pub mod MessageExecutionFailed
pub mod ReceiveCrossChainMessage
pub mod RelayerRewardsRedeemed
pub mod SendCrossChainMessage
pub mod Delivery
pub mod Laws
