-- ===== src/Common/Arith.antt =====
-- Division with rounding down, as the fixed-point code uses it.
use Prim.Native.Nat.{ℕ, ◌+◌, ◌*◌, ◌/◌, ◌≤◌, ◌<◌}
use native.Mathlib.Omega.{arith}

pub div-mul-le : (a d : ℕ) → (a / d) * d ≤ a
div-mul-le a d = grind arith

pub lt-div-mul : (a d : ℕ) → 0 < d → a < (a / d + 1) * d
lt-div-mul a d h = grind arith

-- A quotient is the greatest number whose multiple fits.
pub le-div_of_mul-le : (a d k : ℕ) → 0 < d → k * d ≤ a → k ≤ a / d
le-div_of_mul-le a d k h p = grind arith

pub div-le_of_le-mul : (a d k : ℕ) → 0 < d → a ≤ k * d → a / d ≤ k
div-le_of_le-mul a d k h p = grind arith

pub mul_mono : (a b c d : ℕ) → a ≤ b → c ≤ d → a * c ≤ b * d
mul_mono a b c d p q = grind arith

-- Cancelling a positive factor of an order.
pub le_of_mul-le-mul : (a b c : ℕ) → 0 < c → a * c ≤ b * c → a ≤ b
le_of_mul-le-mul a b c h p = grind arith

pub lt_of_mul-lt-mul : (a b c : ℕ) → a * c < b * c → a < b
lt_of_mul-lt-mul a b c p = grind arith

pub mul-lt : (a b c d : ℕ) → a < c → b < d → a * b < c * d
mul-lt a b c d p q = grind arith

pub div_mono : (a b d : ℕ) → 0 < d → a ≤ b → a / d ≤ b / d
div_mono a b d h p = grind arith

pub div-le : (a d : ℕ) → 0 < d → a / d ≤ a
div-le a d h = grind arith

pub mul-lt_right : (a b c : ℕ) → 0 < c → a < b → a * c < b * c
mul-lt_right a b c h p = grind arith
