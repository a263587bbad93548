-- ===== src/Suite.antt =====
-- tests/: the end-to-end suite's helpers and networks.
pub mod Uri
pub mod Logs
pub mod Wait
pub mod Transactions
pub mod Acceptance
