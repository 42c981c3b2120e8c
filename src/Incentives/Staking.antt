-- ===== src/Incentives/Staking.antt =====
-- Deposits, withdrawals and claims of LP tokens' stakers
-- (contracts/tokenomics/incentives/src/execute.rs).
use astroport_core.Common.{
  ℕ, Bool, true, Option, none, some, List, [], ◌∷◌, not, ◌==◌, ltb, if◌then◌else◌, ◌&&◌,
}
use astroport_core.Cosmwasm.{
  Result, ok, not_found, Math, ◌>>=◌, ◌>>◌, or_err, fail_if, map_err, unwrap_or,
}
use astroport_core.Asset.{
  Addr, Text, Asset, AssetInfo, native_token, equal, Chain, MessageInfo, Env, CosmosMsg, into_msg,
  addr_opt_validate,
}
use astroport_core.Incentives.Types.{
  ContractError, std, payment_error, duplicated_pool_found, amount_exceeds_balance,
  position_doesnt_exist, PoolInfo, UserInfo, Op, add, sub,
}
use astroport_core.Incentives.Positions.{new_position, update_and_sync_position}
use astroport_core.Incentives.Storage.{Store, Iteration, Transfer, save, determine_asset_info}
use astroport_core.Incentives.Stakes.{position_of, put_position, drop_position}
use astroport_core.Incentives.Blocklist.{Registry}
use astroport_core.Incentives.Activation.{FactoryQueries, is_valid_pool, or_new, has_text}
use astroport_core.Incentives.Rewards.{Claim, claim_position, claim_positions, pay_rewards}

unfoldable pub or_position : ℕ → Option UserInfo → UserInfo
unfolding new_position
or_position now none = new_position now
or_position now (some info) = info

-- `UserInfo::save` and `UserInfo::remove`
unfoldable pub save_position : AssetInfo → Addr → UserInfo → Store → Store
unfolding put_position
save_position lp user info store = record store {
  positions =
      λ a. if equal a lp then put_position user info (store.positions a) else store.positions a;
}

unfoldable pub remove_position : AssetInfo → Addr → Store → Store
unfolding drop_position
remove_position lp user store = record store {
  positions = λ a. if equal a lp then drop_position user (store.positions a) else store.positions a;
}

-- What a call leaves: the storage, the transfers of rewards, and the other messages.
abbrev pub Outcome : Type 0
Outcome = Store × (List Transfer × List CosmosMsg)

module _ (m : Math) (order : Iteration) (now : ℕ) where
  -- The rewards of one position are claimed, and its amount is changed.
  unfoldable pub claim_and_change :
      Op
      → Addr
      → Claim
      → Store
      → Result ContractError ((UserInfo × PoolInfo) × (Store × List Transfer))
  unfolding claim_position pay_rewards update_and_sync_position
  claim_and_change operation user claim store = do
    ((lp, (pool, info)), gathered) ← claim_position m order now store claim ([], 0)
    paid ← pay_rewards m store.config user gathered store
    changed ← map_err std (update_and_sync_position m operation info pool)
    ok (changed, paid)

  unfoldable pub save_claims_of : Addr → List Claim → Store → Result ContractError Store
  unfolding save save_position
  save_claims_of user [] store = ok store
  save_claims_of user ((lp, (pool, info)) ∷ rest) store = do
    store' ← map_err std (save m order lp pool store)
    save_claims_of user rest (save_position lp user info store')

unfoldable pub deposit :
    Math
    → Chain
    → Registry
    → FactoryQueries
    → Iteration
    → Env
    → Asset
    → Addr
    → Option Text
    → Store
    → Result ContractError Outcome
unfolding claim_and_change is_valid_pool or_new or_position save save_position addr_opt_validate
deposit m chain registry factory order env maybe_lp sender recipient store = do
  to ← map_err std (addr_opt_validate chain recipient)
  let staker = unwrap_or to sender
  let lp = maybe_lp.info
  valid ← map_err std (is_valid_pool chain registry factory store.config lp)
  let pool = or_new (store.pools lp)
  let info = or_position env.seconds (position_of staker (store.positions lp))
  ((info', pool'), (paid, transfers)) ←
      claim_and_change m order env.seconds (add maybe_lp.amount) staker (lp, (pool, info)) store
  saved ← map_err std (save m order lp pool' paid)
  ok (save_position lp staker info' saved, (transfers, []))

-- `ExecuteMsg::Deposit`
unfoldable pub deposit_coin :
    Math
    → Chain
    → Registry
    → FactoryQueries
    → Iteration
    → Env
    → MessageInfo
    → Option Text
    → Store
    → Result ContractError Outcome
unfolding deposit
deposit_coin m chain registry factory order env info recipient store = do
  coin ← or_err payment_error (chain.one_coin info)
  deposit m chain registry factory order env
      (record { info = native_token coin.denom; amount = coin.coin_amount }) info.sender recipient
      store

unfoldable pub withdraw :
    Math → Chain → Iteration → Env → MessageInfo → Text → ℕ → Store → Result ContractError Outcome
unfolding claim_and_change save save_position remove_position into_msg determine_asset_info
withdraw m chain order env info lp_token amount store = do
  lp ← map_err std (determine_asset_info chain lp_token)
  user_info ← or_err position_doesnt_exist (position_of info.sender (store.positions lp))
  fail_if (ltb user_info.amount amount) amount_exceeds_balance
  pool ← or_err (std not_found) (store.pools lp)
  ((user', pool'), (paid, transfers)) ←
      claim_and_change m order env.seconds (sub amount) info.sender (lp, (pool, user_info)) store
  saved ← map_err std (save m order lp pool' paid)
  message ← map_err std (into_msg (record { info = lp; amount = amount }) info.sender)
  ok (
    if user'.amount == 0
        then remove_position lp info.sender saved
        else save_position lp info.sender user' saved,
    (transfers, message ∷ []),
  )

unfoldable pub all_unique_texts : List Text → Bool
unfolding has_text
all_unique_texts [] = true
all_unique_texts (t ∷ rest) = not (has_text t rest) && all_unique_texts rest

unfoldable pub load_claims : Chain → Addr → Store → List Text → Result ContractError (List Claim)
unfolding determine_asset_info
load_claims chain user store [] = ok []
load_claims chain user store (lp_token ∷ rest) = do
  lp ← map_err std (determine_asset_info chain lp_token)
  pool ← or_err (std not_found) (store.pools lp)
  info ← or_err position_doesnt_exist (position_of user (store.positions lp))
  more ← load_claims chain user store rest
  ok ((lp, (pool, info)) ∷ more)

-- `ExecuteMsg::ClaimRewards`
unfoldable pub claim :
    Math → Chain → Iteration → Env → MessageInfo → List Text → Store → Result ContractError Outcome
unfolding all_unique_texts load_claims claim_positions pay_rewards save_claims_of
claim m chain order env info lp_tokens store = do
  fail_if (not (all_unique_texts lp_tokens)) duplicated_pool_found
  claims ← load_claims chain info.sender store lp_tokens
  (claimed, gathered) ← claim_positions m order env.seconds store claims ([], 0)
  (paid, transfers) ← pay_rewards m store.config info.sender gathered store
  saved ← save_claims_of m order env.seconds info.sender claimed paid
  ok (saved, (transfers, []))
