-- ===== src/Cosmwasm/Types.antt =====
-- How a call of a contract ends, the errors of cosmwasm_std, and its arithmetic as a parameter.
use Prim.Native.String.{String}
use astroport_core.Common.{ℕ, ◌^◌, Bool, true, false, Option, none, some, ltb, if◌then◌else◌}

-- A panic aborts the transaction: it can be neither mapped nor caught.
pub data Result (E A : Type 0) : Type 0 where
  ok : A → Result E A
  err : E → Result E A
  panic : Result E A

pub data StdError : Type 0 where
  overflow conversion_overflow divide_by_zero not_found : StdError
  generic_err : String → StdError

infixl 5 ◌>>=◌ ◌>>◌
abbrev pub ◌>>=◌ : {E A B : Type 0} → Result E A → (A → Result E B) → Result E B
ok a >>= f = f a
err e >>= f = err e
panic >>= f = panic

abbrev pub ◌>>◌ : {E B : Type 0} → Result E (Unit {0}) → Result E B → Result E B
m >> k = m >>= λ _. k

-- `map_err`
abbrev pub map_err : {E F A : Type 0} → (E → F) → Result E A → Result F A
map_err f (ok a) = ok a
map_err f (err e) = err (f e)
map_err f panic = panic

-- `ok_or`
abbrev pub or_err : {E A : Type 0} → E → Option A → Result E A
or_err e none = err e
or_err e (some a) = ok a

-- `unwrap`, `expect`, and the operators that panic.
abbrev pub or_panic : {E A : Type 0} → Option A → Result E A
or_panic none = panic
or_panic (some a) = ok a

-- `if b { return Err(e) }`
abbrev pub fail_if : {E : Type 0} → Bool → E → Result E (Unit {0})
fail_if true e = err e
fail_if false e = ok tt

-- `unwrap_or`
abbrev pub unwrap_or : {A : Type 0} → Option A → A → A
unwrap_or none d = d
unwrap_or (some a) d = a

-- A value that must fit `w` bits.
abbrev pub fits : ℕ → ℕ → Option ℕ
fits w a = if ltb a (2 ^ w) then some a else none

-- DECIMAL_FRACTIONAL: the atomics of 1.
abbrev pub fractional : ℕ
fractional = 1_000_000_000_000_000_000

pub record Math : Type 0 where
  pub checked_add : ℕ → ℕ → ℕ → Option ℕ
  pub checked_sub : ℕ → ℕ → Option ℕ
  pub checked_mul : ℕ → ℕ → ℕ → Option ℕ
  pub multiply_ratio : ℕ → ℕ → ℕ → ℕ → Option ℕ
  pub saturating_sub : ℕ → ℕ → ℕ
  pub wrapping_add : ℕ → ℕ → ℕ → ℕ
  pub try_into : ℕ → ℕ → Option ℕ
  pub isqrt : ℕ → ℕ
  pub from_ratio : ℕ → ℕ → ℕ → Option ℕ
  pub mul_decimal : ℕ → ℕ → ℕ → Option ℕ
  pub decimal_mul : ℕ → ℕ → ℕ → Option ℕ
  pub inv : ℕ → Option ℕ
