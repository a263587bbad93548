-- ===== src/Utils.antt =====
-- utils/: the Go helpers for relayers and for the deployment of the contract.
pub mod Gas
pub mod Deployment
pub mod ContractTool
