-- ===== src/Bindings.antt =====
-- The hand-written helpers of the TeleporterMessenger binding.
pub mod Types
pub mod Abi
pub mod Event
pub mod Packing
pub mod Filter
