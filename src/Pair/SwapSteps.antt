-- ===== src/Pair/SwapSteps.antt =====
-- The steps of the pair's `swap`, and the writes of CONFIG (contracts/pair/src/contract.rs).
use astroport_core.Common.{ℕ, Option, none, some, List, [], ◌∷◌, ◌==◌, ltb, if◌then◌else◌}
use astroport_core.Cosmwasm.{
  Result, ok, err, StdError, overflow, Math, ◌>>=◌, fail_if, or_err, or_panic, map_err,
}
use astroport_core.Asset.{AssetInfo, Asset, Addr, Env, Chain, CosmosMsg, equal, into_msg}
use astroport_core.Pair.Types.{
  FeeShareConfig, ContractError, std, asset_mismatch, pool_paused, Config, Snapshot,
}
use astroport_core.Pair.Calc.{calculate_maker_fee}

-- MAX_FEE_SHARE_BPS
abbrev pub max_fee_share_bps : ℕ
max_fee_share_bps = 1_000

-- The end of each handler: where prices were accumulated, CONFIG is saved with them.
unfoldable pub save_prices : Config → Option (ℕ × ℕ × ℕ) → Config
save_prices config none = config
save_prices config (some (pcl0, pcl1, block_time)) = record config {
  price0_cumulative_last = pcl0;
  price1_cumulative_last = pcl1;
  block_time_last = block_time;
}

module _ (m : Math) (chain : Chain) where
  -- The part of the commission that is shared, and its message.
  unfoldable pub share_fee :
      Option FeeShareConfig → AssetInfo → ℕ → Result ContractError (ℕ × ℕ × List CosmosMsg)
  share_fee none ask_info commission_amount = ok (0, commission_amount, [])
  share_fee (some share) ask_info commission_amount = do
    rate ← or_panic (m.from_ratio 128 share.bps 10_000)
    amount ← or_panic (m.mul_decimal 128 commission_amount rate)
    if amount == 0 then ok (0, commission_amount, []) else (do
      message ← map_err std (into_msg (record { info = ask_info; amount = amount }) share.recipient)
      ok (amount, m.saturating_sub commission_amount amount, message ∷ []))

  -- The maker's part of what is left of the commission, and its message.
  unfoldable pub pay_maker :
      Option Addr → AssetInfo → ℕ → ℕ → Result ContractError (ℕ × List CosmosMsg)
  pay_maker none ask_info fees maker_fee_rate = ok (0, [])
  pay_maker (some fee_address) ask_info fees maker_fee_rate = do
    fee ← map_err std (calculate_maker_fee m ask_info fees maker_fee_rate)
    elim fee [
      | none ↦ ok (0, [])
      | some f ↦ do message ← map_err std (into_msg f fee_address); ok (f.amount, message ∷ [])
    ]

  -- The message to the receiver of the swap.
  unfoldable pub pay_receiver : AssetInfo → ℕ → Addr → Result ContractError (List CosmosMsg)
  pay_receiver ask_info return_amount receiver = if return_amount == 0 then ok [] else (do
    message ← map_err std (into_msg (record { info = ask_info; amount = return_amount }) receiver)
    ok (message ∷ []))

  -- The pools with the offer taken out of the one that has already received it.
  unfoldable pub pools_before_offer : Asset → List Asset → Result StdError (List Asset)
  pools_before_offer offer [] = ok []
  pools_before_offer offer (p ∷ ps) = do
    pool ←
        if equal p.info offer.info
        then (do
          amount ← or_err overflow (m.checked_sub p.amount offer.amount)
          ok (record p { amount = amount }))
        else ok p
    pools ← pools_before_offer offer ps
    ok (pool ∷ pools)

  -- (offer_pool, ask_pool)
  unfoldable pub pick_pools : Asset → Asset → Asset → Result ContractError (Asset × Asset)
  pick_pools offer p0 p1 =
      if equal offer.info p0.info
      then ok (p0, p1)
      else if equal offer.info p1.info
      then ok (p1, p0)
      else err asset_mismatch

  -- The tracked balances after a swap.
  unfoldable pub track_swap :
      Config
      → ℕ
      → Asset
      → Asset
      → ℕ
      → ℕ
      → ℕ
      → ℕ
      → List Snapshot
      → Result ContractError (List Snapshot)
  track_swap config height offer_pool ask_pool offer_amount return_amount maker fee_share balances =
      if config.track_asset_balances
      then (do
        offer_balance ← or_panic (m.checked_add 128 offer_pool.amount offer_amount)
        after_return ← or_panic (m.checked_sub ask_pool.amount return_amount)
        after_maker ← or_panic (m.checked_sub after_return maker)
        ask_balance ← or_panic (m.checked_sub after_maker fee_share)
        ok (
            record { asset = ask_pool.info; balance = ask_balance; at_height = height }
            ∷ record { asset = offer_pool.info; balance = offer_balance; at_height = height }
            ∷ balances))
      else ok balances

  -- The check of the pause window.
  unfoldable pub check_unpaused : Config → Env → Result ContractError (Unit {0})
  check_unpaused config env = elim config.pool_unpause_at [
    | none ↦ ok tt
    | some unpause_at ↦ fail_if (ltb env.time unpause_at) (pool_paused unpause_at)
  ]
