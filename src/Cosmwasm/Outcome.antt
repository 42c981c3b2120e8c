-- ===== src/Cosmwasm/Outcome.antt =====
-- What holds of the value of every call that succeeds.
use astroport_core.Common.{◌≡◌, refl, subst, Bool, true, false}
use astroport_core.Cosmwasm.Types.{Result, ok, err, panic, ◌>>=◌, ◌>>◌, fail_if}
use astroport_core.Cosmwasm.Inversion.{ok-inj}

abbrev pub Gives : {E A : Type 0} → (A → Type 0) → Result E A → Type 0
Gives P (ok a) = P a
Gives P (err e) = Unit
Gives P panic = Unit

module _ {E A B : Type 0} (P : B → Type 0) where
  -- The first step succeeded, with a value that the rest may use.
  pub bind-Gives :
      (first : Result E A) (f : A → Result E B)
      → ((a : A) → first ≡ ok a → Gives P (f a))
      → Gives P (first >>= f)
  bind-Gives (ok a) f h = h a refl
  bind-Gives (err e) f h = tt
  bind-Gives panic f h = tt

module _ {E B : Type 0} (P : B → Type 0) where
  pub fail_if-Gives :
      (t : Bool) (e : E) (rest : Result E B)
      → (t ≡ false → Gives P rest)
      → Gives P (fail_if t e >> rest)
  fail_if-Gives true e rest h = tt
  fail_if-Gives false e rest h = h refl

  pub of-Gives : (result : Result E B) (b : B) → Gives P result → result ≡ ok b → P b
  of-Gives (ok x) b g h = subst P (ok-inj h) g
  of-Gives (err e) b g h = cc
  of-Gives panic b g h = cc

module _ {E A : Type 0} {P Q : A → Type 0} where
  pub Gives-map : ((a : A) → P a → Q a) → (result : Result E A) → Gives P result → Gives Q result
  Gives-map f (ok a) h = f a h
  Gives-map f (err e) h = tt
  Gives-map f panic h = tt

module _ {E A : Type 0} {P : A → Type 0} where
  pub Gives-all : ((a : A) → P a) → (result : Result E A) → Gives P result
  Gives-all f (ok a) = f a
  Gives-all f (err e) = tt
  Gives-all f panic = tt
