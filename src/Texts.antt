-- ===== src/Texts.antt =====
-- Byte strings in the order of their bytes, and the maps that are kept in that order: what the contracts
-- use of cw_storage_plus `Map`.
pub mod Order
pub mod Sorting
pub mod Dict
