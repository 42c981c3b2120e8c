-- ===== src/Pair/Deposits.antt =====
-- The steps of the pair's handlers over lists of assets (contracts/pair/src/contract.rs).
use astroport_core.Common.{
  ℕ, Bool, true, false, Option, none, some, List, [], ◌∷◌, ◌++◌, ◌==◌, ◌||◌, not, ltb,
  if◌then◌else◌, length, get_elem?,
}
use astroport_core.Cosmwasm.{
  Result, ok, panic, StdError, overflow, generic_err, Math, ◌>>=◌, ◌>>◌, fail_if, or_err, or_panic,
  map_err,
}
use astroport_core.Asset.{
  Coin, AssetInfo, token, native_token, Asset, Addr, Env, MessageInfo, Chain, CosmosMsg,
  cw20_transfer_from, mint, incentives_deposit, equal, contains, check, into_msg, query_pools,
  query_native_supply,
}
use astroport_core.Pair.Types.{
  ContractError, std, invalid_zero_amount, wrong_asset_length, asset_mismatch,
  withdraw_slippage_violation, auto_stake_error, Config, Snapshot,
}

-- `find(|a| a.info.equal(info)).map(|a| a.amount)`
unfoldable pub find_amount : List Asset → AssetInfo → Option ℕ
find_amount [] info = none
find_amount (a ∷ rest) info = if equal a.info info then some a.amount else find_amount rest info

unfoldable pub get_deposits_from_assets :
    Chain → List Asset → List Asset → Result ContractError (ℕ × ℕ)
unfolding find_amount
get_deposits_from_assets chain assets pools = do
  fail_if (not (length assets == 2))
      (std (generic_err "asset_infos must contain exactly two elements"))
  a0 ← or_panic (get_elem? assets 0)
  map_err std (check chain a0.info)
  a1 ← or_panic (get_elem? assets 1)
  map_err std (check chain a1.info)
  p0 ← or_panic (get_elem? pools 0)
  d0 ← or_panic (find_amount assets p0.info)
  p1 ← or_panic (get_elem? pools 1)
  d1 ← or_panic (find_amount assets p1.info)
  fail_if (d0 == 0 || d1 == 0) invalid_zero_amount
  ok (d0, d1)

-- The loop of `provide_liquidity` over the pools: a message pulls each cw20 deposit, and the pool of a
-- native asset, which the call's funds have already raised, is lowered by the deposit.
unfoldable pub take_deposits :
    Math
    → Env
    → MessageInfo
    → List Asset
    → List ℕ
    → Result ContractError (List Asset × List CosmosMsg)
take_deposits m env info [] ds = ok ([], [])
take_deposits m env info (p ∷ ps) [] = panic
take_deposits m env info (p ∷ ps) (d ∷ ds) = do
  (pool, messages) ← elim p.info [
    | token contract_addr ↦ ok (p, cw20_transfer_from contract_addr info.sender env.self d ∷ [])
    | native_token denom ↦ do
      amount ← or_err (std overflow) (m.checked_sub p.amount d)
      ok (record p { amount = amount }, [])
  ]
  (pools, more) ← take_deposits m env info ps ds
  ok (pool ∷ pools, messages ++ more)

-- The loops that write the tracked balances, each from its pools and changes.
unfoldable pub save_balances :
    (ℕ → ℕ → Result ContractError ℕ)
    → ℕ
    → List Asset
    → List ℕ
    → List Snapshot
    → Result ContractError (List Snapshot)
save_balances change height [] ds balances = ok balances
save_balances change height (p ∷ ps) [] balances = panic
save_balances change height (p ∷ ps) (d ∷ ds) balances = do
  balance ← change p.amount d
  save_balances change height ps ds
      (record { asset = p.info; balance = balance; at_height = height } ∷ balances)

unfoldable pub mint_liquidity_token_message :
    Chain → Config → Addr → Addr → ℕ → Bool → Result ContractError (List CosmosMsg)
mint_liquidity_token_message chain config contract_address recipient amount auto_stake =
    let coin : Coin = record { denom = config.pair_info.liquidity_token; coin_amount = amount } in
    if not auto_stake then ok (mint contract_address coin recipient ∷ []) else (do
      factory_config ← map_err std (chain.factory_config config.factory_addr)
      address ← or_err auto_stake_error factory_config.generator_address
      ok (
          mint contract_address coin contract_address
          ∷ incentives_deposit address recipient coin
          ∷ []))

-- The loop over the minimums: each names an asset of the pair.
unfoldable pub all_in_pair : List AssetInfo → List Asset → Bool
all_in_pair infos [] = true
all_in_pair infos (a ∷ rest) = if contains infos a.info then all_in_pair infos rest else false

-- The comparison of one refund with its minimum.
unfoldable pub at_least : Asset → Asset → Result ContractError (Unit {0})
at_least refund minimum =
    fail_if (ltb refund.amount minimum.amount)
      (withdraw_slippage_violation refund.info refund.amount minimum.amount)

unfoldable pub check_minimums : Config → List Asset → List Asset → Result ContractError (Unit {0})
unfolding all_in_pair at_least
check_minimums config refund_assets minimums = do
  fail_if (not (length refund_assets == length minimums))
      (wrong_asset_length (length refund_assets) (length minimums))
  fail_if (not (all_in_pair config.pair_info.asset_infos minimums)) asset_mismatch
  r0 ← or_panic (get_elem? refund_assets 0)
  m0 ← or_panic (get_elem? minimums 0)
  r1 ← or_panic (get_elem? refund_assets 1)
  let in_order = equal r0.info m0.info
  at_least (if in_order then r0 else r1) m0
  m1 ← or_panic (get_elem? minimums 1)
  at_least (if in_order then r1 else r0) m1

unfoldable pub ensure_min_assets_to_receive :
    Config → List Asset → Option (List Asset) → Result ContractError (Unit {0})
ensure_min_assets_to_receive config refund_assets none = ok tt
ensure_min_assets_to_receive config refund_assets (some minimums) =
    check_minimums config refund_assets minimums

-- The conversion of the refunds into messages.
unfoldable pub into_msgs : List Asset → Addr → Result StdError (List CosmosMsg)
into_msgs [] recipient = ok []
into_msgs (a ∷ rest) recipient = do
  message ← into_msg a recipient
  more ← into_msgs rest recipient
  ok (message ∷ more)

-- `pool_info`
unfoldable pub pool_info : Chain → Config → Result StdError (List Asset × ℕ)
pool_info chain config = do
  pools ← query_pools chain config.pair_info config.pair_info.contract_addr
  total_share ← query_native_supply chain config.pair_info.liquidity_token
  ok (pools, total_share)
