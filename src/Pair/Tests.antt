-- ===== src/Pair/Tests.antt =====
-- Concrete runs of the pair (contracts/pair/src/contract.rs), and its theorems at them.
mod Amounts
mod Runs
