-- ===== src/Pair/Calc.antt =====
-- The arithmetic of the constant product pair (contracts/pair/src/contract.rs): swaps in both
-- directions, shares, spread and slippage limits, cumulative prices. Amounts are the values of
-- Uint128 and Uint256; rates are decimals by their atomics.
use astroport_core.Common.{
  ℕ, ◌-◌, ◌^◌, Option, none, some, List, [], ◌∷◌, ◌==◌, ◌||◌, ltb, leb, min, if◌then◌else◌,
}
use astroport_core.Cosmwasm.{
  Result, ok, StdError, conversion_overflow, overflow, generic_err, Math, ◌>>=◌, ◌>>◌, fail_if,
  or_err, or_panic, unwrap_or, fractional,
}
use astroport_core.Asset.{Asset, AssetInfo, check_swap_parameters}
use astroport_core.Pair.Types.{
  ContractError, std, Config, minimum_liquidity_amount_error, allowed_spread_assertion,
  max_spread_assertion, max_slippage_assertion,
}

-- MINIMUM_LIQUIDITY_AMOUNT, DEFAULT_SLIPPAGE (0.005), MAX_ALLOWED_SLIPPAGE (0.5), and ten to the
-- power TWAP_PRECISION.
abbrev pub minimum_liquidity_amount : ℕ
minimum_liquidity_amount = 1_000

abbrev pub default_slippage : ℕ
default_slippage = 5_000_000_000_000_000

abbrev pub max_allowed_slippage : ℕ
max_allowed_slippage = 500_000_000_000_000_000

abbrev pub price_precision : ℕ
price_precision = 10 ^ 6

module _ (m : Math) where
  -- Returns (return_amount, spread_amount, commission_amount).
  unfoldable pub compute_swap : ℕ → ℕ → ℕ → ℕ → Result StdError (ℕ × ℕ × ℕ)
  unfolding check_swap_parameters
  compute_swap offer_pool ask_pool offer_amount commission_rate = do
    check_swap_parameters (offer_pool ∷ ask_pool ∷ []) offer_amount
    cp ← or_panic (m.checked_mul 256 offer_pool ask_pool)
    total ← or_panic (m.checked_add 256 offer_pool offer_amount)
    ask_decimal ← or_panic (m.from_ratio 256 ask_pool 1)
    left_decimal ← or_panic (m.from_ratio 256 cp total)
    return_decimal ← or_panic (m.checked_sub ask_decimal left_decimal)
    return_amount ← or_panic (m.mul_decimal 256 1 return_decimal)
    price ← or_panic (m.from_ratio 256 ask_pool offer_pool)
    at_price ← or_panic (m.mul_decimal 256 offer_amount price)
    let spread_amount = m.saturating_sub at_price return_amount
    commission_amount ← or_panic (m.mul_decimal 256 return_amount commission_rate)
    net_amount ← or_panic (m.checked_sub return_amount commission_amount)
    net ← or_err conversion_overflow (m.try_into 128 net_amount)
    spread ← or_err conversion_overflow (m.try_into 128 spread_amount)
    commission ← or_err conversion_overflow (m.try_into 128 commission_amount)
    ok (net, spread, commission)

  -- Returns (offer_amount, spread_amount, commission_amount).
  unfoldable pub compute_offer_amount : ℕ → ℕ → ℕ → ℕ → Result StdError (ℕ × ℕ × ℕ)
  unfolding check_swap_parameters
  compute_offer_amount offer_pool ask_pool ask_amount commission_rate = do
    check_swap_parameters (offer_pool ∷ ask_pool ∷ []) ask_amount
    cp ← or_panic (m.checked_mul 256 offer_pool ask_pool)
    one_minus_commission ← or_panic (m.checked_sub fractional commission_rate)
    inv_one_minus_commission ← or_panic (m.from_ratio 256 fractional one_minus_commission)
    before_commission ← or_panic (m.mul_decimal 256 ask_amount inv_one_minus_commission)
    before ← or_err conversion_overflow (m.try_into 128 before_commission)
    ask_left ← or_err overflow (m.checked_sub ask_pool before)
    offer_after ← or_panic (m.multiply_ratio 256 cp 1 ask_left)
    offer_wide ← or_err overflow (m.checked_sub offer_after offer_pool)
    offer_amount ← or_err conversion_overflow (m.try_into 128 offer_wide)
    price ← or_panic (m.from_ratio 128 ask_pool offer_pool)
    at_price ← or_panic (m.mul_decimal 128 offer_amount price)
    let spread_amount = m.saturating_sub at_price before
    commission_wide ← or_panic (m.mul_decimal 256 before_commission commission_rate)
    commission_amount ← or_err conversion_overflow (m.try_into 128 commission_wide)
    ok (offer_amount, spread_amount, commission_amount)

  unfoldable pub assert_slippage_tolerance :
      Option ℕ → ℕ × ℕ → ℕ × ℕ → Result ContractError (Unit {0})
  assert_slippage_tolerance slippage_tolerance (d0, d1) (p0, p1) = do
    let tolerance = unwrap_or slippage_tolerance default_slippage
    fail_if (ltb max_allowed_slippage tolerance) allowed_spread_assertion
    one_minus_tolerance ← or_panic (m.checked_sub fractional tolerance)
    d01 ← or_panic (m.from_ratio 256 d0 d1)
    left01 ← or_panic (m.decimal_mul 256 d01 one_minus_tolerance)
    p01 ← or_panic (m.from_ratio 256 p0 p1)
    fail_if (ltb p01 left01) max_slippage_assertion
    d10 ← or_panic (m.from_ratio 256 d1 d0)
    left10 ← or_panic (m.decimal_mul 256 d10 one_minus_tolerance)
    p10 ← or_panic (m.from_ratio 256 p1 p0)
    fail_if (ltb p10 left10) max_slippage_assertion

  -- The first provision: the geometric mean of the deposits, less the locked minimum.
  unfoldable pub initial_share : ℕ × ℕ → Result ContractError ℕ
  initial_share (d0, d1) = do
    product ← or_panic (m.checked_mul 256 d0 d1)
    root ← or_err (std conversion_overflow) (m.try_into 128 (m.isqrt product))
    share ← or_err minimum_liquidity_amount_error (m.checked_sub root minimum_liquidity_amount)
    fail_if (share == 0) minimum_liquidity_amount_error
    ok share

  unfoldable pub calculate_shares : ℕ × ℕ → ℕ × ℕ → ℕ → Option ℕ → Result ContractError ℕ
  unfolding initial_share
  calculate_shares (d0, d1) (p0, p1) total_share slippage_tolerance =
      if total_share == 0 then initial_share (d0, d1) else do
        assert_slippage_tolerance slippage_tolerance (d0, d1) (p0, p1)
        share0 ← or_panic (m.multiply_ratio 128 d0 total_share p0)
        share1 ← or_panic (m.multiply_ratio 128 d1 total_share p1)
        ok (min share0 share1)

  unfoldable pub share_ratio : ℕ → ℕ → Result StdError ℕ
  share_ratio amount total_share =
      if total_share == 0 then ok 0 else or_panic (m.from_ratio 128 amount total_share)

  -- The map over the pools.
  unfoldable pub scale_assets : List Asset → ℕ → Result StdError (List Asset)
  scale_assets [] ratio = ok []
  scale_assets (a ∷ rest) ratio = do
    amount ← or_panic (m.mul_decimal 128 a.amount ratio)
    scaled ← scale_assets rest ratio
    ok (record { info = a.info; amount = amount } ∷ scaled)

  unfoldable pub get_share_in_assets : List Asset → ℕ → ℕ → Result StdError (List Asset)
  unfolding share_ratio scale_assets
  get_share_in_assets pools amount total_share = do
    ratio ← share_ratio amount total_share
    scale_assets pools ratio

  -- The maximum spread where the caller gave a belief price.
  unfoldable pub assert_belief_price : ℕ → ℕ → ℕ → ℕ → Result ContractError (Unit {0})
  assert_belief_price belief_price max_spread offer_amount return_amount = do
    inverse ← or_err (std (generic_err "Belief price must not be zero!")) (m.inv belief_price)
    expected_return ← or_panic (m.mul_decimal 128 offer_amount inverse)
    let spread_amount = m.saturating_sub expected_return return_amount
    if ltb return_amount expected_return
        then (do
          spread ← or_panic (m.from_ratio 128 spread_amount expected_return)
          fail_if (ltb max_spread spread) max_spread_assertion)
        else ok tt

  unfoldable pub assert_swap_spread : ℕ → ℕ → ℕ → Result ContractError (Unit {0})
  assert_swap_spread max_spread return_amount spread_amount = do
    total ← or_panic (m.checked_add 128 return_amount spread_amount)
    spread ← or_panic (m.from_ratio 128 spread_amount total)
    fail_if (ltb max_spread spread) max_spread_assertion

  unfoldable pub assert_max_spread :
      Option ℕ → Option ℕ → ℕ → ℕ → ℕ → Result ContractError (Unit {0})
  unfolding assert_belief_price assert_swap_spread
  assert_max_spread belief_price max_spread offer_amount return_amount spread_amount = do
    let allowed = unwrap_or max_spread default_slippage
    fail_if (ltb max_allowed_slippage allowed) allowed_spread_assertion
    elim belief_price [
      | some price ↦ assert_belief_price price allowed offer_amount return_amount
      | none ↦ assert_swap_spread allowed return_amount spread_amount
    ]

  unfoldable pub calculate_maker_fee : AssetInfo → ℕ → ℕ → Result StdError (Option Asset)
  calculate_maker_fee pool_info commission_amount maker_commission_rate = do
    maker_fee ← or_panic (m.mul_decimal 128 commission_amount maker_commission_rate)
    ok (if maker_fee == 0 then none else some (record { info = pool_info; amount = maker_fee }))

  -- One cumulative price: the old one plus the time elapsed at the price `y / x`, modulo 2^128.
  unfoldable pub accumulate : ℕ → ℕ → ℕ → ℕ → Result StdError ℕ
  accumulate cumulative time_elapsed x y = do
    weight ← or_err overflow (m.checked_mul 128 time_elapsed price_precision)
    added ← or_panic (m.multiply_ratio 128 weight y x)
    ok (m.wrapping_add 128 cumulative added)

  -- `none` where the block is not newer than the last one that was counted.
  unfoldable pub accumulate_prices : ℕ → Config → ℕ → ℕ → Result StdError (Option (ℕ × ℕ × ℕ))
  accumulate_prices block_time config x y =
      if leb block_time config.block_time_last
      then ok none
      else if x == 0 || y == 0
      then ok (some (config.price0_cumulative_last, config.price1_cumulative_last, block_time))
      else do
        let time_elapsed = block_time - config.block_time_last
        pcl0 ← accumulate config.price0_cumulative_last time_elapsed x y
        pcl1 ← accumulate config.price1_cumulative_last time_elapsed y x
        ok (some (pcl0, pcl1, block_time))
