-- ===== src/Contract.antt =====
-- What the generated bindings of all contracts have in common: the package bind that they call, and the code
-- that the generator writes again for every event.
pub mod Bound
pub mod Iterator
pub mod Watch
