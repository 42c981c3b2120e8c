-- ===== src/Buffer/Staged.antt =====
-- The precommit buffer of the circular buffer as writes that wait (packages/circular_buffer/src/lib.rs).
use astroport_core.Common.{
  ℕ, false, ◌<◌, ◌≡◌, refl, sym, ◌∙◌, Bool-cases, inl, inr, Option, none, some, List, [], ◌∷◌,
  arith, ◌==◌, if◌then◌else◌, ==_iff, leb,
}
use astroport_core.Cosmwasm.{ok}
use astroport_core.Buffer.Manager.{insert, save, save_all}

module _ {V : Type 0} where
  abbrev pub look_up : List (ℕ × V) → ℕ → Option V
  look_up [] i = none
  look_up ((k, v) ∷ rest) i = if i == k then some v else look_up rest i

  -- What a read gives once the writes are done.
  abbrev pub staged : List (ℕ × V) → (ℕ → Option V) → ℕ → Option V
  staged [] array i = array i
  staged ((k, v) ∷ rest) array i = if i == k then some v else staged rest array i

  -- Each key is written once.
  abbrev pub Once : List (ℕ × V) → Type 0
  Once [] = Unit
  Once ((k, v) ∷ rest) = (look_up rest k ≡ none) × Once rest

  abbrev pub Below : ℕ → List (ℕ × V) → Type 0
  Below capacity [] = Unit
  Below capacity ((k, v) ∷ rest) = (k < capacity) × Below capacity rest

  look_up-insert_other :
      (key i : ℕ) (value : V) (writes : List (ℕ × V))
      → (i == key) ≡ false
      → look_up writes i ≡ none
      → look_up (insert key value writes) i ≡ none
  look_up-insert_other key i value [] apart h = ground arith
  look_up-insert_other key i value ((k, v) ∷ rest) apart h =
      ground (arith, look_up-insert_other key i value rest apart)

  pub insert-Once :
      (key : ℕ) (value : V) (writes : List (ℕ × V)) → Once writes → Once (insert key value writes)
  insert-Once key value [] o = (refl, tt)
  insert-Once key value ((k, v) ∷ rest) o = elim (Bool-cases (k == key)) [
    | inl e ↦ let same = (==_iff k key).0 e in rw e (rw (sym same) (o.0), o.1)
    | inr e ↦ rw e (look_up-insert_other key k value rest e o.0, insert-Once key value rest o.1)
  ]

  pub insert-Below :
      (capacity key : ℕ) (value : V) (writes : List (ℕ × V))
      → key < capacity
      → Below capacity writes
      → Below capacity (insert key value writes)
  insert-Below capacity key value [] h b = (h, tt)
  insert-Below capacity key value ((k, v) ∷ rest) h b = elim (Bool-cases (k == key)) [
    | inl e ↦ rw e (h, b.1)
    | inr e ↦ rw e (b.0, insert-Below capacity key value rest h b.1)
  ]

  pub staged-insert :
      (key i : ℕ) (value : V) (writes : List (ℕ × V)) (array : ℕ → Option V)
      → staged (insert key value writes) array i
        ≡ (if i == key then some value else staged writes array i)
  staged-insert key i value [] array = refl
  staged-insert key i value ((k, v) ∷ rest) array =
      ground (arith, staged-insert key i value rest array)

  -- A write that waits for no key of the rest may be done first.
  staged-save :
      (k i : ℕ) (v : V) (rest : List (ℕ × V)) (array : ℕ → Option V)
      → look_up rest k ≡ none
      → staged rest (save k v array) i ≡ (if i == k then some v else staged rest array i)
  staged-save k i v [] array h = refl
  staged-save k i v ((x, y) ∷ rest) array h = ground (arith, staged-save k i v rest array)

  -- The loop of `commit` does all the writes.
  pub save_all-staged :
      (capacity : ℕ) (writes : List (ℕ × V)) (array : ℕ → Option V)
      → Once writes
      → Below capacity writes
      → (saved : ℕ → Option V) × (save_all capacity writes array ≡ ok saved)
        × ((i : ℕ) → saved i ≡ staged writes array i)
  unfolding save_all
  save_all-staged capacity [] array o b = (array, refl, λ i. refl)
  save_all-staged capacity ((k, v) ∷ rest) array o b =
      let (saved, e, same) = save_all-staged capacity rest (save k v array) o.1 b.1 in
      let fine : leb capacity k ≡ false = ground arith in
      (saved, rw fine e, λ i. same i ∙ staged-save k i v rest array o.0)
