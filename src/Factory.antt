-- ===== src/Factory.antt =====
-- The factory (contracts/factory/src/contract.rs, state.rs, error.rs): the registry of pairs, and the
-- settings and fees by pair type.
pub mod Types
pub mod Keys
pub mod Handlers
pub mod Entry
pub mod Invariant
pub mod Registry
pub mod Collisions
mod Tests
