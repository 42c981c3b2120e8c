-- ===== src/Texts/Sorting.antt =====
-- Sorting byte strings: `sorted` of itertools.
use mathlib.Core.List.{foldr, Perm}
use mathlib.Core.List.Perm
use native.Mathlib.Nat.{ℕ_set}
use astroport_core.Common.{◌≡◌, List, [], ◌∷◌, arith, if◌then◌else◌}
use astroport_core.Asset.{Text}
use astroport_core.Texts.Order.{text_le, text_le_total, text_le_antisymm, text_le_trans}

unfoldable pub insert_sorted : Text → List Text → List Text
insert_sorted s [] = s ∷ []
insert_sorted s (t ∷ ts) = if text_le s t then s ∷ t ∷ ts else t ∷ insert_sorted s ts

unfoldable pub sorted : List Text → List Text
sorted = foldr insert_sorted []

insert_sorted_comm :
    (s t : Text) (ts : List Text)
    → insert_sorted s (insert_sorted t ts) ≡ insert_sorted t (insert_sorted s ts)
unfolding insert_sorted
insert_sorted_comm s t [] = ground (arith, text_le_total s t, text_le_antisymm s t)
insert_sorted_comm s t (u ∷ us) = ground (
  arith,
  insert_sorted_comm s t us,
  text_le_total s t,
  text_le_antisymm s t,
  text_le_total t s,
  text_le_trans s t u,
  text_le_trans t s u,
  text_le_total s u,
  text_le_total t u,
)

-- The order of the texts does not matter.
pub sorted-perm : (xs ys : List Text) → Perm xs ys → sorted xs ≡ sorted ys
unfolding sorted
sorted-perm xs ys p =
    let texts_set : IsSet (List Text) = hlevel ℕ_set in
    Perm.foldr-eq texts_set insert_sorted insert_sorted_comm p []
