-- ===== src/Texts/Dict.antt =====
-- A map in the contract's storage: its entries by ascending key.
use astroport_core.Common.{
  ◌≡◌, refl, ◌∙◌, inl, inr, Bool, true, false, Option, none, some, List, [], ◌∷◌, arith,
  if◌then◌else◌,
}
use astroport_core.Asset.{Text, text_eq}
use astroport_core.Asset.Equality.{eq_of_text_eq}
use astroport_core.Texts.Order.{text_le, text_eq_cases, text_eq_of_eq}

abbrev pub Dict : Type 0 → Type 0
Dict V = List (Text × V)

module _ {V : Type 0} where
  unfoldable pub lookup : Text → Dict V → Option V
  lookup k [] = none
  lookup k ((j, v) ∷ m) = if text_eq j k then some v else lookup k m

  unfoldable pub insert : Text → V → Dict V → Dict V
  insert k v [] = (k, v) ∷ []
  insert k v ((j, w) ∷ m) =
      let later = insert k v m in
      if text_eq j k
      then (k, v) ∷ m
      else if text_le k j
      then (k, v) ∷ (j, w) ∷ m
      else (j, w) ∷ later

  unfoldable pub remove : Text → Dict V → Dict V
  remove k [] = []
  remove k ((j, v) ∷ m) = let rest = remove k m in if text_eq j k then rest else (j, v) ∷ rest

  unfoldable pub has : Text → Dict V → Bool
  unfolding lookup
  has k m = elim (lookup k m) [ none ↦ false | some v ↦ true ]

  pub lookup-insert :
      (k j : Text) (v : V) (m : Dict V)
      → lookup j (insert k v m) ≡ (if text_eq k j then some v else lookup j m)
  unfolding lookup insert
  lookup-insert k j v [] = refl
  lookup-insert k j v ((i, w) ∷ m) = elim (text_eq_cases i k) [
    | inl (same, e) ↦ rw e (rw same (ground arith))
    | inr e ↦ rw e (
        ground
          (arith, lookup-insert k j v m, eq_of_text_eq i j, eq_of_text_eq k j, text_eq_of_eq i k))
  ]

  pub lookup-remove :
      (k j : Text) (m : Dict V) → lookup j (remove k m) ≡ (if text_eq k j then none else lookup j m)
  unfolding lookup remove
  lookup-remove k j [] = ground arith
  lookup-remove k j ((i, w) ∷ m) = elim (text_eq_cases i k) [
    | inl (same, e) ↦ rw e (lookup-remove k j m ∙ rw same (ground arith))
    | inr e ↦ rw e (
        ground
          (arith, lookup-remove k j m, eq_of_text_eq i j, eq_of_text_eq k j, text_eq_of_eq i k))
  ]
