-- ===== src/Pair.antt =====
-- The constant product pair (contracts/pair/src/contract.rs).
pub mod Types
pub mod Calc
pub mod Deposits
pub mod SwapSteps
pub mod Handlers
pub mod Entry
pub mod SwapRun
pub mod Payments
pub mod Solvency
pub mod Setup
pub mod Access
mod Tests
pub mod Reach
pub mod Swap
pub mod Shares
pub mod Limits
pub mod Prices
