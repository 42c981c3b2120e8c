-- ===== src/Cosmwasm.antt =====
-- What the contracts take from the package cosmwasm_std (not in this repository): how a call ends,
-- the standard errors, and the arithmetic of Uint128, Uint256, Decimal and Decimal256. The
-- arithmetic is a record of functions, which every definition takes as a parameter; `IsDocumented`
-- states the documented behaviour of each. A decimal is held by its atomics, a number that counts
-- units of 1 / `fractional`. A `w`-bit operation takes the width `w` as its first argument.
pub mod Types
pub mod Laws
pub mod Inversion
pub mod Outcome
pub use Types.*
unfoldable pub use Laws.{sqrt}
pub use Laws.*
