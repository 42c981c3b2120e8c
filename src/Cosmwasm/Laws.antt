-- ===== src/Cosmwasm/Laws.antt =====
-- The documented behaviour of the arithmetic, a concrete arithmetic that has it, and that it
-- determines the functions: a fact about the concrete one holds of any.
use astroport_core.Common.{
  ℕ, zero, suc, ◌+◌, ◌-◌, ◌*◌, ◌/◌, ◌%◌, ◌^◌, ◌≤◌, ◌<◌, ◌≡◌, refl, Option, none, some, ltb, leb,
  ◌==◌, if◌then◌else◌, arith, true, false, Bool-cases, inl, inr, leb→le, not_leb, lt→ltb, ==_of_pos,
}
use astroport_core.Cosmwasm.Types.{Math, fits, fractional}

abbrev pub sub? : ℕ → ℕ → Option ℕ
sub? a b = if ltb a b then none else some (a - b)

-- `a * n / d` with a full-width product; by zero, or where the result does not fit, it fails.
abbrev pub ratio? : ℕ → ℕ → ℕ → ℕ → Option ℕ
ratio? w a n d = if d == 0 then none else fits w (a * n / d)

-- 10^36 / atomics
abbrev pub inverse? : ℕ → Option ℕ
inverse? a = if a == 0 then none else some (fractional * fractional / a)

-- The root rounded down.
abbrev pub IsRoot : ℕ → ℕ → Type 0
IsRoot n r = (r * r ≤ n) × (n < (r + 1) * (r + 1))

pub record IsDocumented (m : Math) : Type 0 where
  pub checked_add_lem : (w a b : ℕ) → m.checked_add w a b ≡ fits w (a + b)
  pub checked_sub_lem : (a b : ℕ) → m.checked_sub a b ≡ sub? a b
  pub checked_mul_lem : (w a b : ℕ) → m.checked_mul w a b ≡ fits w (a * b)
  pub multiply_ratio_lem : (w a n d : ℕ) → m.multiply_ratio w a n d ≡ ratio? w a n d
  pub saturating_sub_lem : (a b : ℕ) → m.saturating_sub a b ≡ a - b
  pub wrapping_add_lem : (w a b : ℕ) → m.wrapping_add w a b ≡ (a + b) % 2 ^ w
  pub try_into_lem : (w a : ℕ) → m.try_into w a ≡ fits w a
  pub isqrt_lem : (a : ℕ) → IsRoot a (m.isqrt a)
  pub from_ratio_lem : (w n d : ℕ) → m.from_ratio w n d ≡ ratio? w n fractional d
  pub mul_decimal_lem : (w a d : ℕ) → m.mul_decimal w a d ≡ fits w (a * d / fractional)
  pub decimal_mul_lem : (w a b : ℕ) → m.decimal_mul w a b ≡ fits w (a * b / fractional)
  pub inv_lem : (a : ℕ) → m.inv a ≡ inverse? a

IsRoot-unique : (n r s : ℕ) → IsRoot n r → IsRoot n s → r ≡ s
IsRoot-unique n r s p q = grind arith

-- One more binary digit of the root for each two of the number.
root_step : ℕ → ℕ → ℕ
root_step n r = if leb ((2 * r + 1) * (2 * r + 1)) n then 2 * r + 1 else 2 * r

root : ℕ → ℕ → ℕ
root zero n = 0
root (suc f) n = elim (n == 0) [ true ↦ 0 | false ↦ root_step n (root f (n / 4)) ]

root_step-IsRoot : (n r : ℕ) → IsRoot (n / 4) r → IsRoot n (root_step n r)
unfolding root_step
root_step-IsRoot n r p = elim (Bool-cases (leb ((2 * r + 1) * (2 * r + 1)) n)) [
  | inl e ↦ rw e (let fit = leb→le _ _ e in (omega arith, omega arith))
  | inr e ↦ rw e (let over = not_leb _ _ e in (omega arith, omega arith))
]

root-IsRoot : (f n : ℕ) → n ≤ f → IsRoot n (root f n)
unfolding root
root-IsRoot zero n h = (omega arith, omega arith)
root-IsRoot (suc f) n h = elim (Bool-cases (n == 0)) [
  | inl e ↦ ground arith
  | inr e ↦
      ground (arith, root_step-IsRoot n (root f (n / 4)) (root-IsRoot f (n / 4) (ground arith)))
]

unfoldable pub sqrt : ℕ → ℕ
unfolding root root_step
sqrt n = root n n

pub sqrt-IsRoot : (n : ℕ) → IsRoot n (sqrt n)
unfolding sqrt
sqrt-IsRoot n = root-IsRoot n n (omega arith)

abbrev pub exact : Math
exact = record {
  checked_add = λ w a b. fits w (a + b);
  checked_sub = sub?;
  checked_mul = λ w a b. fits w (a * b);
  multiply_ratio = ratio?;
  saturating_sub = λ a b. a - b;
  wrapping_add = λ w a b. (a + b) % 2 ^ w;
  try_into = fits;
  isqrt = sqrt;
  from_ratio = λ w n d. ratio? w n fractional d;
  mul_decimal = λ w a d. fits w (a * d / fractional);
  decimal_mul = λ w a b. fits w (a * b / fractional);
  inv = inverse?;
}

pub exact-IsDocumented : IsDocumented exact
exact-IsDocumented = record {
  checked_add_lem = λ w a b. refl;
  checked_sub_lem = λ a b. refl;
  checked_mul_lem = λ w a b. refl;
  multiply_ratio_lem = λ w a n d. refl;
  saturating_sub_lem = λ a b. refl;
  wrapping_add_lem = λ w a b. refl;
  try_into_lem = λ w a. refl;
  isqrt_lem = sqrt-IsRoot;
  from_ratio_lem = λ w n d. refl;
  mul_decimal_lem = λ w a d. refl;
  decimal_mul_lem = λ w a b. refl;
  inv_lem = λ a. refl;
}

-- The documentation determines every function.
pub eq-exact : {m : Math} → IsDocumented m → m ≡ exact
eq-exact {m} d = λ i. record {
  checked_add = λ w a b. d.checked_add_lem w a b i;
  checked_sub = λ a b. d.checked_sub_lem a b i;
  checked_mul = λ w a b. d.checked_mul_lem w a b i;
  multiply_ratio = λ w a n e. d.multiply_ratio_lem w a n e i;
  saturating_sub = λ a b. d.saturating_sub_lem a b i;
  wrapping_add = λ w a b. d.wrapping_add_lem w a b i;
  try_into = λ w a. d.try_into_lem w a i;
  isqrt = λ a. IsRoot-unique a (m.isqrt a) (sqrt a) (d.isqrt_lem a) (sqrt-IsRoot a) i;
  from_ratio = λ w n e. d.from_ratio_lem w n e i;
  mul_decimal = λ w a e. d.mul_decimal_lem w a e i;
  decimal_mul = λ w a b. d.decimal_mul_lem w a b i;
  inv = λ a. d.inv_lem a i;
}

-- The operations at values that fit.
pub fits_of_lt : (w a : ℕ) → a < 2 ^ w → fits w a ≡ some a
fits_of_lt w a h = rw (lt→ltb a (2 ^ w) h)

pub sub?_of_le : (a b : ℕ) → b ≤ a → sub? a b ≡ some (a - b)
sub?_of_le a b h = ground arith

pub ratio?_of_lt : (w a n d : ℕ) → 0 < d → a * n / d < 2 ^ w → ratio? w a n d ≡ some (a * n / d)
ratio?_of_lt w a n d p h = rw ((==_of_pos d p), lt→ltb (a * n / d) (2 ^ w) h)
