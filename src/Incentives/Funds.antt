-- ===== src/Incentives/Funds.antt =====
-- The amounts of a denomination in funds, messages and inputs, and what a payment takes off them
-- (contracts/tokenomics/incentives/src/utils.rs).
use astroport_core.Common.{
  ℕ, Bool, true, false, Option, none, some, List, [], ◌∷◌, ◌++◌, if◌then◌else◌, ◌+◌, ◌*◌, ◌-◌, ◌≡◌,
  refl, sym, ap, arith, Bool-cases, inl, inr,
}
use astroport_core.Cosmwasm.{ok, exact, sub?, fractional, or_err, unwrap_or}
use astroport_core.Cosmwasm.Inversion.{sub?-ok, ratio?-ok, fail_if-ok, ok-inj, or_err-some}
use astroport_core.Cosmwasm.Outcome.{Gives, bind-Gives}
use astroport_core.Asset.{
  Addr, Text, AssetInfo, token, native_token, Coin, text_eq, CosmosMsg, bank_send,
}
use astroport_core.Asset.Equality.{eq_of_text_eq}
use astroport_core.Incentives.Types.{
  IncentivesSchedule, incentivization_fee_expected, insufficient_reward_token,
}
use astroport_core.Incentives.Inputs.{InputSchedule, from_input, next_epoch_start, epoch_length}
use astroport_core.Incentives.Storage.{IncentivizationFeeInfo}
use astroport_core.Incentives.Points.{sub?-some}
use astroport_core.Incentives.Incentivizing.{take_coin, Paid, take_fee, take_reward}

-- An amount, if it is of the denomination.
unfoldable pub of_denom : Text → Text → ℕ → ℕ
of_denom d denom amount = if text_eq denom d then amount else 0

unfoldable pub coins_of : Text → List Coin → ℕ
unfolding of_denom
coins_of d [] = 0
coins_of d (coin ∷ rest) = of_denom d coin.denom coin.coin_amount + coins_of d rest

-- What the messages send of a denomination.
unfoldable pub sent_of : Text → List CosmosMsg → ℕ
unfolding of_denom
sent_of d [] = 0
sent_of d (bank_send to coin ∷ rest) = of_denom d coin.denom coin.coin_amount + sent_of d rest
sent_of d (message ∷ rest) = sent_of d rest

-- What the inputs add of a native token.
unfoldable pub reward_of : Text → AssetInfo → ℕ → ℕ
unfolding of_denom
reward_of d (token contract_addr) amount = 0
reward_of d (native_token denom) amount = of_denom d denom amount

unfoldable pub inputs_of : Text → List (Text × InputSchedule) → ℕ
unfolding reward_of
inputs_of d [] = 0
inputs_of d ((lp_token, input) ∷ rest) =
    reward_of d input.reward.info input.reward.amount + inputs_of d rest

of_denom-sub :
    (d denom : Text) (a n left : ℕ)
    → sub? a n ≡ some left
    → of_denom d denom left + of_denom d denom n ≡ of_denom d denom a
unfolding of_denom
of_denom-sub d denom a n left h =
    let is = sub?-some a n left h in
    elim (Bool-cases (text_eq denom d)) [
      | inl e ↦ rw e (omega (arith, is))
      | inr e ↦ rw e (omega arith)
    ]

module _ (d denom : Text) (amount : ℕ) where
  take_coin-coins_of :
      (funds left : List Coin)
      → take_coin exact denom amount funds ≡ some left
      → coins_of d left + of_denom d denom amount ≡ coins_of d funds
  unfolding take_coin coins_of
  take_coin-coins_of [] left h = cc
  take_coin-coins_of (coin ∷ rest) left h = elim (Bool-cases (text_eq coin.denom denom)) [
    | inl e ↦ here (sub? coin.coin_amount amount) refl e (rw (e, take_coin) at h)
    | inr e ↦
        later (λ more is. take_coin-coins_of rest more is) (take_coin exact denom amount rest) refl
          (rw (e, take_coin) at h)
  ]
    where
      here :
          (o : Option ℕ)
          → sub? coin.coin_amount amount ≡ o
          → text_eq coin.denom denom ≡ true
          → (elim o [ none ↦ none | some n ↦ some (record coin { coin_amount = n } ∷ rest) ])
            ≡ some left
          → coins_of d left + of_denom d denom amount ≡ coins_of d (coin ∷ rest)
      here none is e h = cc
      here (some n) is e h =
          let same : record coin { coin_amount = n } ∷ rest ≡ left = ap (λ o. unwrap_or o []) h in
          let one = of_denom-sub d coin.denom coin.coin_amount amount n is in
          rw⁻¹ same (rw⁻¹ (eq_of_text_eq coin.denom denom e) (omega (arith, one)))

      later :
          ((more : List Coin)
            → take_coin exact denom amount rest ≡ some more
            → coins_of d more + of_denom d denom amount ≡ coins_of d rest)
          → (o : Option (List Coin)) → take_coin exact denom amount rest ≡ o
          → (elim o [ none ↦ none | some more ↦ some (coin ∷ more) ]) ≡ some left
          → coins_of d left + of_denom d denom amount ≡ coins_of d (coin ∷ rest)
      later sums none is h = cc
      later sums (some more) is h =
          let same : coin ∷ more ≡ left = ap (λ o. unwrap_or o []) h in
          rw⁻¹ same (omega (arith, sums more is))

-- What a payment takes off the funds, for all messages it sends and the reward it adds.
abbrev pub Spends : Text → List Coin → ℕ → Paid → Type 0
Spends d funds added paid = coins_of d paid.0 + sent_of d paid.1 + added ≡ coins_of d funds

module _ (d : Text) where
  pub take_fee-Spends :
      (fee_info : Option IncentivizationFeeInfo) (is_new : Bool) (funds : List Coin)
      → Gives (Spends d funds 0) (take_fee exact fee_info is_new funds)
  unfolding take_fee sent_of
  take_fee-Spends fee_info false funds = omega arith
  take_fee-Spends none true funds = omega arith
  take_fee-Spends (some fee_info) true funds =
      bind-Gives _
        (or_err incentivization_fee_expected
          (take_coin exact fee_info.fee.denom fee_info.fee.coin_amount funds))
        _
        λ left takes.
          let sum =
            take_coin-coins_of d fee_info.fee.denom fee_info.fee.coin_amount funds left
              (or_err-some _ _ left takes) in
          omega (arith, sum)

  pub take_reward-Spends :
      (sender contract : Addr) (info : AssetInfo) (amount : ℕ) (funds : List Coin)
      → Gives
          (Spends d funds (reward_of d info amount))
          (take_reward exact sender contract info amount funds)
  unfolding take_reward sent_of reward_of
  take_reward-Spends sender contract (token contract_addr) amount funds = omega arith
  take_reward-Spends sender contract (native_token denom) amount funds =
      bind-Gives _ (or_err insufficient_reward_token (take_coin exact denom amount funds)) _
        λ left takes.
          let sum = take_coin-coins_of d denom amount funds left (or_err-some _ _ left takes) in
          omega (arith, sum)

  pub sent_of-append : (xs ys : List CosmosMsg) → sent_of d (xs ++ ys) ≡ sent_of d xs + sent_of d ys
  unfolding sent_of
  sent_of-append [] ys = omega arith
  sent_of-append (x ∷ xs) ys = ground (arith, sent_of-append xs ys)

pub from_input-reward_info :
    (now : ℕ) (input : InputSchedule) (schedule : IncentivesSchedule)
    → from_input exact now input ≡ ok schedule
    → schedule.reward_info ≡ input.reward.info
unfolding from_input
from_input-reward_info now input schedule run =
    let (_, h1) = fail_if-ok _ _ _ run in
    let end_ts = next_epoch_start now + input.duration_periods * epoch_length in
    let (_, h2) = sub?-ok _ end_ts now h1 in
    let (_, _, h3) = ratio?-ok _ 256 input.reward.amount fractional (end_ts - now) h2 in
    let (_, h4) = fail_if-ok _ _ _ h3 in sym (ap (λ s. s.reward_info) (ok-inj h4))
