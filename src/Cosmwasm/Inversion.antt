-- ===== src/Cosmwasm/Inversion.antt =====
-- What a successful chain of calls says of its first step: the step succeeded, and the rest did.
use astroport_core.Common.{
  ℕ, ◌-◌, ◌*◌, ◌/◌, ◌^◌, ◌≤◌, ◌<◌, ◌≡◌, refl, ap, Bool, true, false, Option, none, some, ltb, arith,
  Bool-cases, inl, inr, ltb→lt, not_ltb, ◌==◌, pos_of_neb,
}
use astroport_core.Cosmwasm.Types.{
  Result, ok, err, panic, ◌>>=◌, ◌>>◌, or_panic, or_err, fail_if, fits, map_err, fractional,
}
use astroport_core.Cosmwasm.Laws.{sub?, ratio?, inverse?}

module _ {E A : Type 0} where
  pub bind-ok :
      {B : Type 0} (m : Result E A) (f : A → Result E B) {b : B}
      → (m >>= f) ≡ ok b
      → (a : A) × (m ≡ ok a) × (f a ≡ ok b)
  bind-ok (ok a) f h = (a, refl, h)
  bind-ok (err e) f h = cc
  bind-ok panic f h = cc

  pub fail_if-ok :
      (t : Bool) (e : E) (k : Result E A) {b : A}
      → (fail_if t e >> k) ≡ ok b
      → (t ≡ false) × (k ≡ ok b)
  fail_if-ok true e k h = cc
  fail_if-ok false e k h = (refl, h)

  pub some-ok :
      {B : Type 0} (o : Option A) (f : A → Result E B) {b : B}
      → (or_panic o >>= f) ≡ ok b
      → (a : A) × (o ≡ some a) × (f a ≡ ok b)
  some-ok none f h = cc
  some-ok (some a) f h = (a, refl, h)

  pub some_err-ok :
      {B : Type 0} (e : E) (o : Option A) (f : A → Result E B) {b : B}
      → (or_err e o >>= f) ≡ ok b
      → (a : A) × (o ≡ some a) × (f a ≡ ok b)
  some_err-ok e none f h = cc
  some_err-ok e (some a) f h = (a, refl, h)

  pub map_err-ok : {F : Type 0} (g : E → F) (m : Result E A) {a : A} → map_err g m ≡ ok a → m ≡ ok a
  map_err-ok g (ok x) h = ground arith
  map_err-ok g (err e) h = cc
  map_err-ok g panic h = cc

module _ {E A : Type 0} (f : ℕ → Result E A) {b : A} where
  pub fits-ok : (w a : ℕ) → (or_panic (fits w a) >>= f) ≡ ok b → (a < 2 ^ w) × (f a ≡ ok b)
  fits-ok w a h = elim (Bool-cases (ltb a (2 ^ w))) [
    | inl e ↦ (ltb→lt _ _ e, rw e at h)
    | inr e ↦ let h' : panic ≡ ok b = rw e at h in cc
  ]

  pub fits_err-ok :
      (w a : ℕ) (e : E) → (or_err e (fits w a) >>= f) ≡ ok b → (a < 2 ^ w) × (f a ≡ ok b)
  fits_err-ok w a x h = elim (Bool-cases (ltb a (2 ^ w))) [
    | inl e ↦ (ltb→lt _ _ e, rw e at h)
    | inr e ↦ let h' : err x ≡ ok b = rw e at h in cc
  ]

  pub sub?-ok : (x y : ℕ) → (or_panic (sub? x y) >>= f) ≡ ok b → (y ≤ x) × (f (x - y) ≡ ok b)
  sub?-ok x y h = elim (Bool-cases (ltb x y)) [
    | inl e ↦ let h' : panic ≡ ok b = rw e at h in cc
    | inr e ↦ (not_ltb _ _ e, rw e at h)
  ]

  pub sub?_err-ok :
      (x y : ℕ) (e : E) → (or_err e (sub? x y) >>= f) ≡ ok b → (y ≤ x) × (f (x - y) ≡ ok b)
  sub?_err-ok x y z h = elim (Bool-cases (ltb x y)) [
    | inl e ↦ let h' : err z ≡ ok b = rw e at h in cc
    | inr e ↦ (not_ltb _ _ e, rw e at h)
  ]

  pub ratio?-ok :
      (w a n d : ℕ)
      → (or_panic (ratio? w a n d) >>= f) ≡ ok b
      → (0 < d) × (a * n / d < 2 ^ w) × (f (a * n / d) ≡ ok b)
  ratio?-ok w a n d h = elim (Bool-cases (d == 0)) [
    | inl e ↦ let h' : panic ≡ ok b = rw e at h in cc
    | inr e ↦ (
      pos_of_neb d e,
      (fits-ok w (a * n / d) (rw e at h)).0,
      (fits-ok w (a * n / d) (rw e at h)).1,
    )
  ]

from_ok : {E A : Type 0} → A → Result E A → A
from_ok d (ok a) = a
from_ok d (err e) = d
from_ok d panic = d

pub ok-inj : {E A : Type 0} {a b : A} → ◌≡◌ {A = Result E A} (ok a) (ok b) → a ≡ b
unfolding from_ok
ok-inj {a = a} h = ap (from_ok a) h

-- A last step is a step before `ok`.
pub or_panic_bind : {E A : Type 0} (o : Option A) → (or_panic {E = E} o >>= ok) ≡ or_panic o
or_panic_bind none = refl
or_panic_bind (some a) = refl

-- A last test that passed.
pub fail_if-passed : {E : Type 0} (t : Bool) (e : E) → fail_if t e ≡ ok tt → t ≡ false
fail_if-passed true e h = cc
fail_if-passed false e h = refl

pub inverse?-some :
    (a : ℕ) (b : ℕ) → inverse? a ≡ some b → (0 < a) × (b ≡ fractional * fractional / a)
inverse?-some a b h = elim (Bool-cases (a == 0)) [
  | inl e ↦ let h' : ◌≡◌ {A = Option ℕ} none (some b) = rw e at h in cc
  | inr e ↦
      let h' : ◌≡◌ {A = Option ℕ} (some (fractional * fractional / a)) (some b) = rw e at h in
      (pos_of_neb a e, cc)
]

pub bind_map_err-ok :
    {E F A B : Type 0} (g : E → F) (m : Result E A) (f : A → Result F B) {b : B}
    → (map_err g m >>= f) ≡ ok b
    → (a : A) × (m ≡ ok a) × (f a ≡ ok b)
bind_map_err-ok g (ok a) f h = (a, refl, h)
bind_map_err-ok g (err e) f h = cc
bind_map_err-ok g panic f h = cc

pub or_err-some : {E A : Type 0} (e : E) (o : Option A) (a : A) → or_err e o ≡ ok a → o ≡ some a
or_err-some e none a h = cc
or_err-some e (some x) a h = ap some (ok-inj h)

pub or_panic-some :
    {E A : Type 0} (o : Option A) (a : A) → ◌≡◌ {A = Result E A} (or_panic o) (ok a) → o ≡ some a
or_panic-some none a h = cc
or_panic-some (some x) a h = ap some (ok-inj h)
