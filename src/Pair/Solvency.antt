-- ===== src/Pair/Solvency.antt =====
-- A successful swap leaves the pair solvent: it pays out of one pool only, no more than that pool
-- holds, and the product of the pools falls by rounding at most.
use astroport_core.Common.{
  ℕ, ◌+◌, ◌-◌, ◌*◌, ◌/◌, ◌^◌, ◌≤◌, ◌<◌, ◌≡◌, false, Option, some, List, [], ◌∷◌, arith, ◌==◌,
  Bool-cases, inl, inr, subst, get_elem?, ◌||◌,
}
use astroport_core.Common.Arith.{mul_mono}
use astroport_core.Cosmwasm.{
  exact-IsDocumented, unwrap_or, ok, err, panic, or_err, Math, exact, IsDocumented, eq-exact,
  fractional, overflow, Result, StdError, ◌>>=◌, fail_if,
}
use astroport_core.Cosmwasm.Inversion.{bind-ok, sub?_err-ok, ok-inj, fail_if-ok, fail_if-passed}
use astroport_core.Asset.{
  CosmosMsg, AssetInfo, token, native_token, Asset, Addr, Env, MessageInfo, Chain, Coin,
  FeeInfoResponse, PairType, Text, equal, query_pools, query_infos, check_swap_parameters,
  query_pool, or_zero,
}
use astroport_core.Pair.Types.{Store, Response, asset_mismatch}
use astroport_core.Pair.Calc.{compute_swap}
use astroport_core.Pair.SwapSteps.{pools_before_offer, pick_pools}
use astroport_core.Pair.Handlers.{swap}
use astroport_core.Pair.Payments.{paid_out, counted, SharesAtMostAll, payments_sum}
use astroport_core.Pair.SwapRun.{SwapRun, swap-SwapRun}
use astroport_core.Pair.Swap.Formula.{InRange}
use astroport_core.Pair.Swap.Product.{compute_swap-product}

-- What the pair relies on of its environment: balances fit Uint128, and the factory keeps its fees
-- within 100%.
pub record IsSane (chain : Chain) : Type 0 where
  pub bank_fits :
      (account : Addr) (denom : Text) (coin : Coin)
      → chain.bank_balance account denom ≡ ok coin
      → coin.coin_amount < 2 ^ 128
  pub cw20_fits :
      (contract account : Addr) (amount : ℕ)
      → chain.cw20_balance contract account ≡ ok amount
      → amount < 2 ^ 128
  pub fees_le :
      (factory : Addr) (kind : PairType) (fees : FeeInfoResponse)
      → chain.fee_info factory kind ≡ ok fees
      → (fees.total_fee_bps ≤ 10_000) × (fees.maker_fee_bps ≤ 10_000)

abbrev AllFit : List Asset → Type 0
AllFit [] = Unit
AllFit (a ∷ rest) = (a.amount < 2 ^ 128) × AllFit rest

or_zero-fits :
    (answer : Result StdError ℕ) (amount : ℕ)
    → ((x : ℕ) → answer ≡ ok x → x < 2 ^ 128)
    → or_zero answer ≡ ok amount
    → amount < 2 ^ 128
or_zero-fits (ok balance) amount small h = small amount h
or_zero-fits (err e) amount small h = subst (λ x. x < 2 ^ 128) (ok-inj h) (omega arith)
or_zero-fits panic amount small h = cc

module _ (chain : Chain) (sane : IsSane chain) where
  query_pool-fits :
      (i : AssetInfo) (account : Addr) (amount : ℕ)
      → query_pool chain i account ≡ ok amount
      → amount < 2 ^ 128
  unfolding query_pool
  query_pool-fits (native_token denom) account amount h =
      let (coin, e, h1) = bind-ok (chain.bank_balance account denom) _ h in
      rw (← ok-inj h1) (sane.bank_fits account denom coin e)
  query_pool-fits (token contract) account amount h =
      or_zero-fits (chain.cw20_balance contract account) amount (sane.cw20_fits contract account) h

  query_infos-AllFit :
      (is : List AssetInfo) (account : Addr) (pools : List Asset)
      → query_infos chain is account ≡ ok pools
      → AllFit pools
  unfolding query_infos
  query_infos-AllFit [] account pools h = subst AllFit (ok-inj h) tt
  query_infos-AllFit (i ∷ is) account pools h =
      let (amount, e, h1) = bind-ok (query_pool chain i account) _ h in
      let (rest, e1, h2) = bind-ok (query_infos chain is account) _ h1 in
      subst AllFit (ok-inj h2)
        (query_pool-fits i account amount e, query_infos-AllFit is account rest e1)

  pools_before_offer-AllFit :
      (offer : Asset) (balances pools : List Asset)
      → AllFit balances
      → pools_before_offer exact chain offer balances ≡ ok pools
      → AllFit pools
  unfolding pools_before_offer
  pools_before_offer-AllFit offer [] pools fit h = subst AllFit (ok-inj h) tt
  pools_before_offer-AllFit offer (p ∷ ps) pools fit h =
      elim (Bool-cases (equal p.info offer.info)) [
        | inl e ↦
            let (taken, e0, h0) =
              bind-ok
                (do
                  amount ← or_err overflow (exact.checked_sub p.amount offer.amount)
                  ok (record p { amount = amount }))
                _ (rw e at h) in
            let (_, h1) = sub?_err-ok _ p.amount offer.amount overflow e0 in
            let (rest, e2, h2) = bind-ok (pools_before_offer exact chain offer ps) _ h0 in
            subst AllFit (ok-inj h2) (
              subst (λ x. x.amount < 2 ^ 128) (ok-inj h1) (omega (arith, fit.0)),
              pools_before_offer-AllFit offer ps rest fit.1 e2,
            )
        | inr e ↦
            let (rest, e1, h1) = bind-ok (pools_before_offer exact chain offer ps) _ (rw e at h) in
            subst AllFit (ok-inj h1) (fit.0, pools_before_offer-AllFit offer ps rest fit.1 e1)
      ]

first_fits :
    (pools : List Asset) (p : Asset)
    → AllFit pools
    → get_elem? pools 0 ≡ some p
    → p.amount < 2 ^ 128
first_fits [] p fit h = cc
first_fits (x ∷ pools) p fit h = ground arith

second_fits :
    (pools : List Asset) (p : Asset)
    → AllFit pools
    → get_elem? pools 1 ≡ some p
    → p.amount < 2 ^ 128
second_fits [] p fit h = cc
second_fits (x ∷ []) p fit h = cc
second_fits (x ∷ y ∷ pools) p fit h = ground arith

-- A pick is one of the two pools each, the offered one first.
pick_pools-fits :
    (chain : Chain) (offer p0 p1 : Asset) (picked : Asset × Asset)
    → p0.amount < 2 ^ 128
    → p1.amount < 2 ^ 128
    → pick_pools exact chain offer p0 p1 ≡ ok picked
    → (picked.0.amount < 2 ^ 128) × (picked.1.amount < 2 ^ 128)
unfolding pick_pools
pick_pools-fits chain offer p0 p1 picked f0 f1 h = elim (Bool-cases (equal offer.info p0.info)) [
  | inl e ↦
      let h' : ok (p0, p1) ≡ ok picked = rw e at h in
      subst (λ (x : Asset × Asset). (x.0.amount < 2 ^ 128) × (x.1.amount < 2 ^ 128)) (ok-inj h')
        (f0, f1)
  | inr e ↦ elim (Bool-cases (equal offer.info p1.info)) [
    | inl e1 ↦
        let h' : ok (p1, p0) ≡ ok picked = rw (e, e1) at h in
        subst (λ (x : Asset × Asset). (x.0.amount < 2 ^ 128) × (x.1.amount < 2 ^ 128)) (ok-inj h')
          (f1, f0)
    | inr e1 ↦ let h' : err asset_mismatch ≡ ok picked = rw (e, e1) at h in cc
  ]
]

-- A successful computation had no empty pool and no empty offer.
all_pos :
    (op aq oa : ℕ)
    → (op == 0 || (aq == 0 || false)) ≡ false
    → (oa == 0) ≡ false
    → (0 < op) × (0 < aq) × (0 < oa)
all_pos op aq oa h k = ground arith

compute_swap_pos :
    (op aq oa c : ℕ) (amounts : ℕ × ℕ × ℕ)
    → compute_swap exact op aq oa c ≡ ok amounts
    → (0 < op) × (0 < aq) × (0 < oa)
unfolding compute_swap check_swap_parameters
compute_swap_pos op aq oa c amounts h =
    let (_, e, _) = bind-ok (check_swap_parameters (op ∷ aq ∷ []) oa) _ h in
    let (pools_pos, e1) = fail_if-ok _ _ (fail_if (oa == 0) _) e in
    all_pos op aq oa pools_pos (fail_if-passed (oa == 0) _ e1)

-- What leaves the contract leaves one pool, which covers it, and the pools keep their product up to
-- the rounding.
pub record Solvent (offer_pool ask_pool : Asset) (offer_amount : ℕ) (messages : List CosmosMsg)
    : Type 0 where
  pub paid : ℕ
  pub pays : (i : AssetInfo) → paid_out i messages ≡ counted i ask_pool.info paid
  pub covered : paid ≤ ask_pool.amount
  pub keeps :
      offer_pool.amount * ask_pool.amount * fractional
      < (offer_pool.amount + offer_amount) * (ask_pool.amount - paid) * fractional
        + (offer_pool.amount + offer_amount)

-- Paying less than the whole keeps a bound from below.
less_paid :
    (c t a whole paid : ℕ)
    → paid ≤ whole
    → c < t * (a - whole) * fractional + t
    → c < t * (a - paid) * fractional + t
less_paid c t a whole paid h k =
    omega (arith, k, mul_mono t t (a - whole) (a - paid) (omega arith) (omega arith))

module _ (chain : Chain) (env : Env) (store : Store) (offer : Asset) (to : Addr) (r : Response)
    (sane : IsSane chain) (shares : SharesAtMostAll store.config.fee_share)
    (small : offer.amount < 2 ^ 128) (run : SwapRun chain env store offer to r) where
  run_pools_fit : (run.traded.picked.0.amount < 2 ^ 128) × (run.traded.picked.1.amount < 2 ^ 128)
  unfolding query_pools
  run_pools_fit =
      let fit =
        query_infos-AllFit chain sane store.config.pair_info.asset_infos _ run.balances
          run.balances_eq in
      let left =
        pools_before_offer-AllFit chain sane offer run.balances run.pools fit run.pools_eq in
      pick_pools-fits chain offer run.p0 run.p1 run.traded.picked
        (first_fits run.pools run.p0 left run.p0_eq) (second_fits run.pools run.p1 left run.p1_eq)
        run.traded.picked_eq

  run_rates :
      (run.traded.fees.total_fee_bps * fractional / 10_000 ≤ fractional)
      × (run.traded.fees.maker_fee_bps * fractional / 10_000 ≤ fractional)
  run_rates =
      let bps = sane.fees_le _ _ run.traded.fees run.traded.fees_eq in
      (omega (arith, bps.0), omega (arith, bps.1))

  run-InRange :
      InRange run.traded.picked.0.amount run.traded.picked.1.amount offer.amount
        (run.traded.fees.total_fee_bps * fractional / 10_000)
  run-InRange =
      let pos = compute_swap_pos _ _ _ _ run.traded.amounts run.traded.amounts_eq in
      record {
        offer_pool_pos = pos.0;
        ask_pool_pos = pos.1;
        offer_amount_pos = pos.2;
        offer_pool_lt = run_pools_fit.0;
        ask_pool_lt = run_pools_fit.1;
        offer_amount_lt = small;
        rate_le = run_rates.0;
      }

  run-Solvent : Solvent run.traded.picked.0 run.traded.picked.1 offer.amount r.messages
  run-Solvent =
      let t = run.traded in
      let bounds = compute_swap-product exact-IsDocumented _ _ _ _ _ _ _ run-InRange t.amounts_eq in
      let pays =
        payments_sum chain env store run.p0 run.p1 t.picked offer.amount t.amounts
          t.fees.fee_recipient _ to r t.settled shares run_rates.1 in
      record {
        paid = pays.0;
        pays = pays.1;
        covered = omega (arith, bounds.0, pays.3);
        keeps = less_paid _ _ _ (t.amounts.0 + t.amounts.2) pays.0 pays.3 bounds.1;
      }

-- On a chain whose balances fit 128 bits and whose factory keeps its fees within 100%, with a fee
-- share of at most 100% and an offer that fits 128 bits, whatever a successful swap sends is of the
-- picked ask pool's asset and covered by that pool, fees included; and the product of the
-- pools, the offer added and all payments taken away, is at least the product before up to the
-- rounding of the 18 decimals.
pub swap-Solvent :
    {m : Math}
    → IsDocumented m
    → (chain : Chain) (env : Env) (info : MessageInfo) (store : Store) (sender : Addr)
      (offer : Asset) (belief_price max_spread : Option ℕ) (to : Option Addr) (r : Response)
    → IsSane chain
    → SharesAtMostAll store.config.fee_share
    → offer.amount < 2 ^ 128
    → swap m chain env info store sender offer belief_price max_spread to ≡ ok r
    → (run : SwapRun chain env store offer (unwrap_or to sender) r) × Solvent run.traded.picked.0
        run.traded.picked.1 offer.amount r.messages
swap-Solvent d =
    rw (eq-exact d)
      λ chain env info store sender offer belief_price max_spread to r sane shares small h.
        let run = swap-SwapRun chain env info store sender offer belief_price max_spread to r h in
        (run, run-Solvent chain env store offer (unwrap_or to sender) r sane shares small run)
