-- ===== src/Pair/Tests/Amounts.antt =====
-- The arithmetic of the pair at concrete amounts.
use astroport_core.Common.{
  ℕ, ◌+◌, ◌-◌, ◌*◌, ◌^◌, ◌≤◌, ◌<◌, ◌≡◌, ◌⊎◌, ◌↔◌, refl, none, some, List, [], ◌∷◌, arith, length,
  false,
}
use astroport_core.Cosmwasm.{
  ok, err, exact, exact-IsDocumented, fractional, conversion_overflow, sqrt,
}
use astroport_core.Asset.{Asset, AssetInfo, native_token, token, xyk}
use astroport_core.Asset.Denom.{validate_native_denom, validate_native_denom_iff, IsWellFormed}
use astroport_core.Pair.Types.{Config}
use astroport_core.Pair.Calc.{
  compute_swap, compute_offer_amount, calculate_shares, get_share_in_assets, assert_max_spread,
  assert_slippage_tolerance, accumulate_prices, accumulate, max_allowed_slippage,
}
use astroport_core.Pair.Swap.Formula.{InRange, gross, commission, at_pool_price}
use astroport_core.Pair.Swap.Product.{
  compute_swap-product, compute_swap_total, compute_swap_lowers_product,
}
use astroport_core.Pair.Swap.Reverse.{compute_swap-compute_offer_amount, before_commission}
use astroport_core.Pair.Shares.{
  calculate_shares_proportional, Refunds, get_share_in_assets-Refunds,
  get_share_in_assets-calculate_shares,
}
use astroport_core.Pair.Limits.{tolerance, assert_slippage_tolerance_bounds}
use astroport_core.Pair.Prices.{Advances, accumulate_prices-Advances}

-- A commission of 0.3%.
abbrev rate : ℕ
rate = 3_000_000_000_000_000

small : InRange 1_000_000 2_000_000 1_000 rate
small = record {
  offer_pool_pos = omega arith;
  ask_pool_pos = omega arith;
  offer_amount_pos = omega arith;
  offer_pool_lt = omega arith;
  ask_pool_lt = omega arith;
  offer_amount_lt = omega arith;
  rate_le = omega arith;
}

small_swap : compute_swap exact 1_000_000 2_000_000 1_000 rate ≡ ok (1_993, 2, 5)
unfolding compute_swap
small_swap = refl

compute_swap-product_example :
    (1_993 + 5 ≤ 2_000_000)
    × (1_000_000 * 2_000_000 * fractional
        < (1_000_000 + 1_000) * (2_000_000 - (1_993 + 5)) * fractional + (1_000_000 + 1_000))
    × ((1_000_000 + 1_000) * (2_000_000 - (1_993 + 5))
        < 1_000_000 * 2_000_000 + (1_000_000 + 1_000))
compute_swap-product_example =
    compute_swap-product exact-IsDocumented 1_000_000 2_000_000 1_000 rate 1_993 2 5 small
      small_swap

compute_swap_total_example :
    ((at_pool_price 1_000_000 2_000_000 1_000 - gross 1_000_000 2_000_000 1_000 < 2 ^ 128)
      × (compute_swap exact 1_000_000 2_000_000 1_000 rate
          ≡ ok (
            gross 1_000_000 2_000_000 1_000 - commission (gross 1_000_000 2_000_000 1_000) rate,
            at_pool_price 1_000_000 2_000_000 1_000 - gross 1_000_000 2_000_000 1_000,
            commission (gross 1_000_000 2_000_000 1_000) rate,
          )))
    ⊎ ((2 ^ 128 ≤ at_pool_price 1_000_000 2_000_000 1_000 - gross 1_000_000 2_000_000 1_000)
        × (compute_swap exact 1_000_000 2_000_000 1_000 rate ≡ err conversion_overflow))
compute_swap_total_example =
    compute_swap_total exact-IsDocumented 1_000_000 2_000_000 1_000 rate small

-- A pool whose product with 3 leaves a remainder of 1 by the grown pool.
abbrev large_pool : ℕ
large_pool = 2_000_000_000_000_000_001

large : InRange large_pool 3 fractional 0
large = record {
  offer_pool_pos = omega arith;
  ask_pool_pos = omega arith;
  offer_amount_pos = omega arith;
  offer_pool_lt = omega arith;
  ask_pool_lt = omega arith;
  offer_amount_lt = omega arith;
  rate_le = omega arith;
}

large_swap : compute_swap exact large_pool 3 fractional 0 ≡ ok (1, 0, 0)
unfolding compute_swap
large_swap = refl

compute_swap_lowers_product_example : (large_pool + fractional) * (3 - (1 + 0)) < large_pool * 3
compute_swap_lowers_product_example =
    compute_swap_lowers_product exact-IsDocumented large_pool 3 fractional 0 1 0 0 large
      (omega arith) (omega arith) large_swap

quote : compute_offer_amount exact 1_000_000 2_000_000 1_000 rate ≡ ok (501, 0, 3)
unfolding compute_offer_amount
quote = refl

quoted : InRange 1_000_000 2_000_000 (501 + 1) rate
quoted = record {
  offer_pool_pos = omega arith;
  ask_pool_pos = omega arith;
  offer_amount_pos = omega arith;
  offer_pool_lt = omega arith;
  ask_pool_lt = omega arith;
  offer_amount_lt = omega arith;
  rate_le = omega arith;
}

quoted_swap : compute_swap exact 1_000_000 2_000_000 (501 + 1) rate ≡ ok (1_000, 1, 3)
unfolding compute_swap
quoted_swap = refl

compute_swap-compute_offer_amount_example : before_commission 1_000 rate ≤ 1_000 + 3
compute_swap-compute_offer_amount_example =
    compute_swap-compute_offer_amount exact-IsDocumented 1_000_000 2_000_000 1_000 rate 501 0 3
      1_000 1 3 quote quoted quoted_swap

first_shares : calculate_shares exact (4_000, 9_000) (0, 0) 0 none ≡ ok 5_000
unfolding calculate_shares sqrt
first_shares = refl

more_shares : calculate_shares exact (100, 200) (1_000, 2_000) 1_400 none ≡ ok 140
unfolding calculate_shares assert_slippage_tolerance
more_shares = refl

calculate_shares_proportional_example :
    (140 * 1_000 ≤ 100 * 1_400)
    × (140 * 2_000 ≤ 200 * 1_400)
    × ((100 * 1_400 < (140 + 1) * 1_000) ⊎ (200 * 1_400 < (140 + 1) * 2_000))
calculate_shares_proportional_example =
    calculate_shares_proportional exact-IsDocumented 100 200 1_000 2_000 1_400 none 140
      (omega arith) more_shares

abbrev luna : AssetInfo
luna = native_token (b'l' ∷ b'u' ∷ b'n' ∷ b'a' ∷ [])

abbrev astro : AssetInfo
astro = token (b'a' ∷ b's' ∷ b't' ∷ b'r' ∷ b'o' ∷ [])

abbrev of_luna : ℕ → Asset
of_luna a = record { info = luna; amount = a }

abbrev of_astro : ℕ → Asset
of_astro a = record { info = astro; amount = a }

withdrawn :
    get_share_in_assets exact
      (of_luna (1_000 + 100) ∷ of_astro (2_000 + 200) ∷ [])
      140
      (1_400 + 140)
    ≡ ok (of_luna 99 ∷ of_astro 199 ∷ [])
unfolding get_share_in_assets
withdrawn = refl

get_share_in_assets-Refunds_example :
    Refunds 140
      (1_400 + 140)
      (of_luna (1_000 + 100) ∷ of_astro (2_000 + 200) ∷ [])
      (of_luna 99 ∷ of_astro 199 ∷ [])
get_share_in_assets-Refunds_example =
    get_share_in_assets-Refunds exact-IsDocumented
      (of_luna (1_000 + 100) ∷ of_astro (2_000 + 200) ∷ []) (of_luna 99 ∷ of_astro 199 ∷ []) 140
      (1_400 + 140) (omega arith) withdrawn

get_share_in_assets-calculate_shares_example : (99 ≤ 100) × (199 ≤ 200)
get_share_in_assets-calculate_shares_example =
    get_share_in_assets-calculate_shares exact-IsDocumented 100 200 1_000 2_000 1_400 none 140 luna
      astro (of_luna 99) (of_astro 199) (omega arith) more_shares withdrawn

spread_passes : assert_max_spread exact none none 1_000 1_998 2 ≡ ok tt
unfolding assert_max_spread
spread_passes = refl

-- A belief that one unit of the ask asset costs half a unit of the offer.
abbrev half : ℕ
half = 500_000_000_000_000_000

belief_passes : assert_max_spread exact (some half) none 1_000 1_998 2 ≡ ok tt
unfolding assert_max_spread
belief_passes = refl

slippage_passes : assert_slippage_tolerance exact none (100, 200) (1_000, 2_000) ≡ ok tt
unfolding assert_slippage_tolerance
slippage_passes = refl

assert_slippage_tolerance_bounds_example :
    (tolerance none ≤ max_allowed_slippage)
    × (100 * (fractional - tolerance none) * 2_000 < 1_000 * 200 * fractional + 2 * (200 * 2_000))
    × (200 * (fractional - tolerance none) * 1_000 < 2_000 * 100 * fractional + 2 * (100 * 1_000))
assert_slippage_tolerance_bounds_example =
    assert_slippage_tolerance_bounds exact-IsDocumented none 100 200 1_000 2_000 slippage_passes

abbrev at_hundred : Config
at_hundred = record {
  pair_info = record {
    asset_infos = luna ∷ astro ∷ [];
    contract_addr = [];
    liquidity_token = [];
    pair_type = xyk;
  };
  factory_addr = [];
  block_time_last = 100;
  price0_cumulative_last = 7;
  price1_cumulative_last = 9;
  track_asset_balances = false;
  fee_share = none;
  tracker_addr = none;
  pool_unpause_at = none;
}

accumulated :
    accumulate_prices exact 110 at_hundred 1_000 2_000 ≡ ok (some (20_000_007, 5_000_009, 110))
unfolding accumulate_prices accumulate
accumulated = refl

accumulate_prices-Advances_example :
    Advances 110 at_hundred 1_000 2_000 (20_000_007, 5_000_009, 110)
accumulate_prices-Advances_example =
    accumulate_prices-Advances exact-IsDocumented 110 at_hundred 1_000 2_000
      (20_000_007, 5_000_009, 110) accumulated

abbrev uluna : List ℕ
uluna = b'u' ∷ b'l' ∷ b'u' ∷ b'n' ∷ b'a' ∷ []

validate_native_denom_iff_example :
    (validate_native_denom uluna ≡ ok tt)
    ↔ ((3 ≤ length uluna) × (length uluna ≤ 128) × IsWellFormed uluna)
validate_native_denom_iff_example = validate_native_denom_iff uluna
