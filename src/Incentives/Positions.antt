-- ===== src/Incentives/Positions.antt =====
-- The position of a user in a pool (contracts/tokenomics/incentives/src/state.rs, `calculate_reward`,
-- `UserInfo`).
use astroport_core.Common.{
  ℕ, Bool, true, false, Option, none, some, List, [], ◌∷◌, ◌++◌, ltb, if◌then◌else◌, map, ◌&&◌,
}
use astroport_core.Cosmwasm.{
  Result, ok, StdError, conversion_overflow, Math, ◌>>=◌, or_panic, or_err,
}
use astroport_core.Asset.{Asset, AssetInfo, contains}
use astroport_core.Incentives.Types.{
  RewardType, is_external, asset_info, matches, RewardInfo, PoolInfo, UserInfo, Op, add, sub, noop,
}

-- `UserInfo::new`
unfoldable pub new_position : ℕ → UserInfo
new_position block_ts = record { amount = 0; last_rewards_index = []; last_claim_time = block_ts }

-- The index of a reward that the user last saw.
unfoldable pub user_index : List (RewardType × ℕ) → RewardType → Option ℕ
unfolding matches
user_index [] reward = none
user_index ((reward_type, index) ∷ rest) reward =
    let later = user_index rest reward in if matches reward_type reward then some index else later

module _ (m : Math) where
  -- The growth of the index that counts for the user.
  unfoldable pub index_gain : RewardInfo → Option ℕ → Result StdError ℕ
  index_gain r none = ok r.index
  index_gain r (some user_reward_index) = elim (ltb r.index user_reward_index) [
    | true ↦ ok r.index
    | false ↦ or_panic (m.checked_sub r.index user_reward_index)
  ]

  unfoldable pub calculate_reward : RewardInfo → UserInfo → Result StdError ℕ
  unfolding index_gain user_index
  calculate_reward r user_info = do
    gain ← index_gain r (user_index user_info.last_rewards_index r.reward)
    reward ← or_panic (m.mul_decimal 256 user_info.amount gain)
    or_err conversion_overflow (m.try_into 128 reward)

  unfoldable pub calculate_rewards :
      List RewardInfo → UserInfo → Result StdError (List (Bool × Asset))
  unfolding calculate_reward is_external asset_info
  calculate_rewards [] user_info = ok []
  calculate_rewards (r ∷ rest) user_info = do
    amount ← calculate_reward r user_info
    more ← calculate_rewards rest user_info
    ok ((is_external r.reward, record { info = asset_info r.reward; amount = amount }) ∷ more)

  -- What an operation makes of an amount.
  unfoldable pub apply_op : Op → ℕ → Result StdError ℕ
  apply_op (add n) amount = or_panic (m.checked_add 128 amount n)
  apply_op (sub n) amount = or_panic (m.checked_sub amount n)
  apply_op noop amount = ok amount

  unfoldable pub update_and_sync_position :
      Op → UserInfo → PoolInfo → Result StdError (UserInfo × PoolInfo)
  unfolding apply_op
  update_and_sync_position operation user_info pool_info = do
    amount ← apply_op operation user_info.amount
    total_lp ← apply_op operation pool_info.total_lp
    ok (
      record {
        amount = amount;
        last_rewards_index = map (λ r. (r.reward, r.index)) pool_info.rewards;
        last_claim_time = pool_info.last_update_ts;
      },
      record pool_info { total_lp = total_lp },
    )

-- The entries of FINISHED_REWARD_INDEXES of a pool after a time.
unfoldable pub finished_after : ℕ → List (ℕ × List (AssetInfo × ℕ)) → List (AssetInfo × ℕ)
finished_after t [] = []
finished_after t ((ts, indexes) ∷ rest) =
    let later = finished_after t rest in if ltb t ts then indexes ++ later else later

unfoldable pub finished_assets : List (ℕ × List (AssetInfo × ℕ)) → ℕ → PoolInfo → List AssetInfo
unfolding finished_after asset_info
finished_assets finished last_claim_time pool_info =
    map (λ x. x.0) (finished_after last_claim_time finished)
    ++ map (λ x. asset_info x.0) pool_info.rewards_to_remove

-- `reset_user_index`: the assets of the finished rewards come from FINISHED_REWARD_INDEXES after the
-- last claim and from the rewards to remove.
unfoldable pub reset_indexes : List AssetInfo → List (RewardType × ℕ) → List (RewardType × ℕ)
unfolding is_external asset_info
reset_indexes finished [] = []
reset_indexes finished ((reward, index) ∷ rest) =
    let more = reset_indexes finished rest in
    if is_external reward && contains finished (asset_info reward)
    then (reward, 0) ∷ more
    else (reward, index) ∷ more

unfoldable pub reset_user_index : List (ℕ × List (AssetInfo × ℕ)) → PoolInfo → UserInfo → UserInfo
unfolding reset_indexes finished_assets
reset_user_index finished pool_info user_info = record user_info {
  last_rewards_index =
      reset_indexes (finished_assets finished user_info.last_claim_time pool_info)
        user_info.last_rewards_index;
}
