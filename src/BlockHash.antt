-- ===== src/BlockHash.antt =====
-- abi-bindings/go/CrossChainApplications/VerifiedBlockHash/BlockHashPublisher/BlockHashPublisher.go:
-- the generated binding of BlockHashPublisher.
pub mod Types
pub mod Binding
pub mod Raw
pub mod Caller
pub mod Transactor
pub mod Session
pub mod CallerSession
pub mod TransactorSession
pub mod PublishBlockHash
