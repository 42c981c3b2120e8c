-- ===== src/Ownership.antt =====
-- The transfer of a contract's ownership in two steps (packages/astroport/src/common.rs). The item that
-- holds the proposal is an argument and a result.
pub mod Proposals
pub mod Rules
