-- ===== src/Pair/Swap.antt =====
-- Facts about the swaps of the constant product pair.
pub mod Formula
pub mod Product
pub mod Reverse
