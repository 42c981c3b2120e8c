-- ===== src/Incentives/Stakes.antt =====
-- USER_INFO of one pool, as the list of its users with their positions
-- (contracts/tokenomics/incentives/src/state.rs).
use astroport_core.Common.{
  true, false, sym, subst, ℕ, Option, none, some, List, [], ◌∷◌, if◌then◌else◌, ◌+◌, ◌≡◌, arith,
  refl, Bool-cases, inl, inr,
}
use astroport_core.Asset.{Addr, text_eq}
use astroport_core.Asset.Equality.{text_eq_refl, eq_of_text_eq}
use astroport_core.Incentives.Types.{UserInfo}

unfoldable pub position_of : Addr → List (Addr × UserInfo) → Option UserInfo
position_of user [] = none
position_of user ((other, info) ∷ rest) =
    let later = position_of user rest in if text_eq other user then some info else later

unfoldable pub put_position : Addr → UserInfo → List (Addr × UserInfo) → List (Addr × UserInfo)
put_position user new [] = (user, new) ∷ []
put_position user new ((other, info) ∷ rest) =
    let later = put_position user new rest in
    if text_eq other user then (other, new) ∷ rest else (other, info) ∷ later

unfoldable pub drop_position : Addr → List (Addr × UserInfo) → List (Addr × UserInfo)
drop_position user [] = []
drop_position user ((other, info) ∷ rest) =
    let later = drop_position user rest in
    if text_eq other user then rest else (other, info) ∷ later

-- All that is staked in the pool.
unfoldable pub sum_amounts : List (Addr × UserInfo) → ℕ
sum_amounts [] = 0
sum_amounts ((user, info) ∷ rest) = info.amount + sum_amounts rest

abbrev pub amount_of : Option UserInfo → ℕ
amount_of none = 0
amount_of (some info) = info.amount

pub sum_amounts-put_position :
    (user : Addr) (new : UserInfo) (l : List (Addr × UserInfo))
    → sum_amounts (put_position user new l) + amount_of (position_of user l)
      ≡ sum_amounts l + new.amount
unfolding sum_amounts put_position position_of
sum_amounts-put_position user new [] = omega arith
sum_amounts-put_position user new ((other, info) ∷ rest) = elim (Bool-cases (text_eq other user)) [
  | inl e ↦ rw e (omega arith)
  | inr e ↦ rw e (omega (arith, sum_amounts-put_position user new rest))
]

pub sum_amounts-drop_position :
    (user : Addr) (l : List (Addr × UserInfo))
    → sum_amounts (drop_position user l) + amount_of (position_of user l) ≡ sum_amounts l
unfolding sum_amounts drop_position position_of
sum_amounts-drop_position user [] = omega arith
sum_amounts-drop_position user ((other, info) ∷ rest) = elim (Bool-cases (text_eq other user)) [
  | inl e ↦ rw e (omega arith)
  | inr e ↦ rw e (omega (arith, sum_amounts-drop_position user rest))
]

pub position_of-put_position :
    (user : Addr) (new : UserInfo) (l : List (Addr × UserInfo))
    → position_of user (put_position user new l) ≡ some new
unfolding put_position position_of
position_of-put_position user new [] = rw (text_eq_refl user) refl
position_of-put_position user new ((other, info) ∷ rest) = elim (Bool-cases (text_eq other user)) [
  | inl e ↦ rw e (rw e refl)
  | inr e ↦ rw e (rw e (position_of-put_position user new rest))
]

-- Another entry than the one that is asked for is found to be another.
elsewhere :
    (user other entry : Addr)
    → text_eq user other ≡ false
    → text_eq entry user ≡ true
    → text_eq entry other ≡ false
elsewhere user other entry apart here =
    subst (λ a. text_eq a other ≡ false) (sym (eq_of_text_eq entry user here)) apart

module _ (user other : Addr) (apart : text_eq user other ≡ false) where
  pub position_of_other-put_position :
      (new : UserInfo) (l : List (Addr × UserInfo))
      → position_of other (put_position user new l) ≡ position_of other l
  unfolding put_position position_of
  position_of_other-put_position new [] = rw apart refl
  position_of_other-put_position new ((entry, info) ∷ rest) =
      let later = position_of_other-put_position new rest in
      elim (Bool-cases (text_eq entry user)) [
        | inl e ↦ rw (e, elsewhere user other entry apart e) refl
        | inr e ↦ rw (e, later) refl
      ]

  pub position_of_other-drop_position :
      (l : List (Addr × UserInfo)) → position_of other (drop_position user l) ≡ position_of other l
  unfolding drop_position position_of
  position_of_other-drop_position [] = refl
  position_of_other-drop_position ((entry, info) ∷ rest) =
      let later = position_of_other-drop_position rest in
      elim (Bool-cases (text_eq entry user)) [
        | inl e ↦ rw (e, elsewhere user other entry apart e) refl
        | inr e ↦ rw (e, later) refl
      ]
