-- ===== src/Asset/Sent.antt =====
-- What the check of the coins sent with a call shows (packages/astroport/src/asset.rs, `CoinsExt`).
use astroport_core.Common.{
  ℕ, ◌≢◌, ◌⊎◌, ◌+◌, ◌<◌, ◌∙◌, ap, refl, subst, inl, inr, Bool-cases, map, length, not-false,
  if◌then◌else◌, ◌≡◌, List, [], ◌∷◌, arith, not, true, false,
}
use astroport_core.Cosmwasm.{Result, ok, StdError}
use astroport_core.Cosmwasm.Inversion.{bind-ok, fail_if-ok}
use astroport_core.Asset.Types.{
  AssetInfo, token, native_token, Asset, Coin, Text, contains, equal, text_eq,
}
use astroport_core.Asset.Equality.{eq_of_equal, ne_of_equal, eq_of_text_eq}
use astroport_core.Asset.Funds.{
  try_for_each, amount_of, check_input, check_coin, assert_coins_properly_sent, all_unique,
  infos_of, is_empty,
}

abbrev pub Each : {A : Type 0} → (A → Type 0) → List A → Type 0
Each P [] = Unit
Each P (x ∷ xs) = P x × Each P xs

abbrev pub OneOf : AssetInfo → List AssetInfo → Type 0
OneOf a [] = ⊥
OneOf a (x ∷ xs) = (x ≡ a) ⊎ OneOf a xs

-- No two of the infos are equal.
abbrev pub Distinct : List AssetInfo → Type 0
Distinct [] = Unit
Distinct (x ∷ xs) = Each (λ y. y ≢ x) xs × Distinct xs

-- No two of the coins are of one denomination, as the chain gives the funds of a call.
abbrev pub DistinctDenoms : List Coin → Type 0
DistinctDenoms [] = Unit
DistinctDenoms (c ∷ cs) = Each (λ x. x.denom ≢ c.denom) cs × DistinctDenoms cs

-- All that the coins hold of a denomination.
unfoldable pub total_sent : List Coin → Text → ℕ
total_sent [] denom = 0
total_sent (c ∷ cs) denom =
    (if text_eq c.denom denom then c.coin_amount else 0) + total_sent cs denom

-- A coin of one of the pool's assets.
abbrev pub OfPool : List AssetInfo → Coin → Type 0
OfPool infos coin = OneOf (native_token coin.denom) infos

-- An asset of the pool, of which the coins hold that amount where it is native.
abbrev pub Held : List Coin → List AssetInfo → Asset → Type 0
Held coins infos a = OneOf a.info infos × (elim a.info [
  | native_token denom ↦ total_sent coins denom ≡ a.amount
  | token contract ↦ Unit
])

contains-OneOf : (infos : List AssetInfo) (a : AssetInfo) → contains infos a ≡ true → OneOf a infos
unfolding contains
contains-OneOf [] a h = cc
contains-OneOf (x ∷ xs) a h = elim (Bool-cases (equal x a)) [
  | inl e ↦ inl (eq_of_equal x a e)
  | inr e ↦ inr (contains-OneOf xs a (rw e at h))
]

contains-Apart :
    (xs : List AssetInfo) (a : AssetInfo) → contains xs a ≡ false → Each (λ y. y ≢ a) xs
unfolding contains
contains-Apart [] a h = tt
contains-Apart (x ∷ xs) a h =
    let here : equal x a ≡ false = ground arith in
    (ne_of_equal x a here, contains-Apart xs a (rw here at h))

all_unique-Distinct : (xs : List AssetInfo) → all_unique xs ≡ true → Distinct xs
unfolding all_unique
all_unique-Distinct [] h = tt
all_unique-Distinct (x ∷ xs) h =
    let apart : contains xs x ≡ false = ground arith in
    (contains-Apart xs x apart, all_unique-Distinct xs (ground arith))

total_sent-none :
    (cs : List Coin) (denom : Text) → Each (λ x. x.denom ≢ denom) cs → total_sent cs denom ≡ 0
unfolding total_sent
total_sent-none [] denom h = refl
total_sent-none (c ∷ cs) denom h = elim (Bool-cases (text_eq c.denom denom)) [
  | inl e ↦ absurd (h.0 (eq_of_text_eq c.denom denom e))
  | inr e ↦ rw e (omega (arith, total_sent-none cs denom h.1))
]

-- The first coin of a denomination is all of it.
amount_of-total_sent :
    (cs : List Coin) (denom : Text) → DistinctDenoms cs → total_sent cs denom ≡ amount_of cs denom
unfolding total_sent amount_of
amount_of-total_sent [] denom h = refl
amount_of-total_sent (c ∷ cs) denom h = elim (Bool-cases (text_eq c.denom denom)) [
  | inr e ↦ rw e (omega (arith, amount_of-total_sent cs denom h.1))
  | inl e ↦
      let apart = subst (λ d. Each (λ x. x.denom ≢ d) cs) (eq_of_text_eq c.denom denom e) h.0 in
      rw e (omega (arith, total_sent-none cs denom apart))
]

try_for_each-Each :
    {A : Type 0} (P : A → Type 0) (f : A → Result StdError (Unit {0})) (xs : List A)
    → ((x : A) → f x ≡ ok tt → P x)
    → try_for_each f xs ≡ ok tt
    → Each P xs
unfolding try_for_each
try_for_each-Each P f [] h k = tt
try_for_each-Each P f (x ∷ xs) h k =
    let (_, e, k1) = bind-ok (f x) _ k in (h x e, try_for_each-Each P f xs h k1)

infos_of-map : (inputs : List Asset) → infos_of inputs ≡ map (λ a. a.info) inputs
unfolding infos_of
infos_of-map [] = refl
infos_of-map (a ∷ rest) = ap (λ l. a.info ∷ l) (infos_of-map rest)

some_input : (inputs : List Asset) → is_empty inputs ≡ false → 0 < length inputs
unfolding is_empty
some_input [] h = cc
some_input (a ∷ rest) h = omega arith

check_coin-OfPool :
    (infos : List AssetInfo) (coin : Coin) → check_coin infos coin ≡ ok tt → OfPool infos coin
unfolding check_coin
check_coin-OfPool infos coin h = contains-OneOf infos (native_token coin.denom) (ground arith)

check_input-Held :
    (coins : List Coin) (infos : List AssetInfo) (info : AssetInfo) (amount : ℕ)
    → DistinctDenoms coins
    → check_input coins infos (record { info = info; amount = amount }) ≡ ok tt
    → Held coins infos (record { info = info; amount = amount })
unfolding check_input
check_input-Held coins infos (token contract) amount distinct h =
    (contains-OneOf infos (token contract) (ground arith), tt)
check_input-Held coins infos (native_token denom) amount distinct h =
    let sent : amount_of coins denom ≡ amount = ground arith in
    (
      contains-OneOf infos (native_token denom) (ground arith),
      amount_of-total_sent coins denom distinct ∙ sent,
    )

-- Where the check of the coins passes, and no two coins are of one denomination: every coin sent is of
-- one of the pool's assets, and every input asset is one of them, of which the coins hold exactly its
-- amount where it is native; there is an input, and no two of them are of one asset.
pub assert_coins_properly_sent-Each :
    (coins : List Coin) (inputs : List Asset) (infos : List AssetInfo)
    → DistinctDenoms coins
    → assert_coins_properly_sent coins inputs infos ≡ ok tt
    → Each (OfPool infos) coins
      × Each (Held coins infos) inputs
      × Distinct (map (λ a. a.info) inputs)
      × (0 < length inputs)
unfolding assert_coins_properly_sent
assert_coins_properly_sent-Each coins inputs infos distinct h =
    let (some_inputs, h1) = fail_if-ok (is_empty inputs) _ _ h in
    let (unique, h2) = fail_if-ok (not (all_unique (infos_of inputs))) _ _ h1 in
    let (_, held, of_pool) = bind-ok (try_for_each (check_input coins infos) inputs) _ h2 in
    (
      try_for_each-Each (OfPool infos) (check_coin infos) coins (check_coin-OfPool infos) of_pool,
      try_for_each-Each (Held coins infos) (check_input coins infos) inputs
          (λ a. check_input-Held coins infos a.info a.amount distinct) held,
      subst Distinct (infos_of-map inputs)
          (all_unique-Distinct (infos_of inputs) (not-false _ unique)),
      some_input inputs some_inputs,
    )
