-- ===== src/Router.antt =====
-- The router: swaps along a route of pairs (contracts/router/src).
pub mod Types
pub mod Operations
pub mod Handlers
pub mod Simulations
pub mod Routes
pub mod Receipts
pub mod Spread
mod Tests
