-- ===== src/Common/Modulo.antt =====
-- Remainders of consecutive numbers.
use Prim.Native.Nat.{ℕ, ◌+◌, ◌-◌, ◌*◌, ◌%◌, ◌/◌, ◌≤◌, ◌<◌}
use mathlib.Core.Path.{◌≡◌}
use mathlib.Core.Logic.{◌⊎◌, inl, inr}
use native.Mathlib.Omega.{arith}
use astroport_core.Common.Arith.{mul_mono}

pub mod_of_sum : (n k r c : ℕ) → n ≡ k * c + r → r < c → n % c ≡ r
mod_of_sum n k r c e h = grind arith

lt_or_le : (a b : ℕ) → (a < b) ⊎ (b ≤ a)
lt_or_le a b = grind arith

pub mod-lt : (n c : ℕ) → 0 < c → n % c < c
mod-lt n c h = grind arith

-- The next remainder is one more, or starts again.
pub mod_next :
    (n c : ℕ)
    → 0 < c
    → ((n % c + 1 < c) × ((n + 1) % c ≡ n % c + 1)) ⊎ ((n % c + 1 ≡ c) × ((n + 1) % c ≡ 0))
mod_next n c h =
    let whole : n ≡ n / c * c + n % c = grind arith in
    let below : n % c < c = grind arith in
    elim (lt_or_le (n % c + 1) c) [
      | inl less ↦ inl (less, mod_of_sum (n + 1) (n / c) (n % c + 1) c (omega arith) less)
      | inr full ↦ inr (omega arith, mod_of_sum (n + 1) (n / c + 1) 0 c (omega arith) h)
    ]

-- The remainder before: stepping back by one from the next one, with a turn added.
pub mod_back : (n c : ℕ) → 0 < c → (c + (n + 1) % c - 1) % c ≡ n % c
mod_back n c h = elim (mod_next n c h) [
  | inl next ↦
      mod_of_sum (c + (n + 1) % c - 1) 1 (n % c) c (omega (arith, next.1)) (omega (arith, next.0))
  | inr next ↦
      mod_of_sum (c + (n + 1) % c - 1) 0 (n % c) c (omega (arith, next.1, next.0))
        (omega (arith, next.0))
]

pub mod_step : (n c : ℕ) → 0 < c → (n % c + 1) % c ≡ (n + 1) % c
mod_step n c h = elim (mod_next n c h) [
  | inl next ↦
      mod_of_sum (n % c + 1) 0 ((n + 1) % c) c (omega (arith, next.1))
        (omega (arith, next.0, next.1))
  | inr next ↦
      mod_of_sum (n % c + 1) 1 ((n + 1) % c) c (omega (arith, next.0, next.1))
        (omega (arith, h, next.1))
]

pub mod_small : (n c : ℕ) → n < c → n % c ≡ n
mod_small n c h = mod_of_sum n 0 n c (omega arith) h

-- Different numbers less than a turn apart have different remainders.
pub mod_apart : (n d c : ℕ) → 0 < d → d < c → d ≤ n → ¬ ((n - d) % c ≡ n % c)
mod_apart n d c h k l e =
    let before : n - d ≡ (n - d) / c * c + (n - d) % c = grind arith in
    let now : n ≡ n / c * c + n % c = grind arith in
    elim (lt_or_le ((n - d) / c) (n / c)) [
      | inl less ↦ omega (arith, mul_mono ((n - d) / c + 1) (n / c) c c (omega arith) (omega arith))
      | inr more ↦ omega (arith, mul_mono (n / c) ((n - d) / c) c c more (omega arith))
    ]
