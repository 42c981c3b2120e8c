-- ===== src/Incentives/Types.antt =====
-- The rewards of a pool and the position of a user (packages/astroport/src/incentives.rs,
-- contracts/tokenomics/incentives/src/state.rs and error.rs).
use astroport_core.Common.{ℕ, Bool, true, false, List, [], ◌∷◌, ◌&&◌, ◌==◌, ltb, if◌then◌else◌}
use astroport_core.Cosmwasm.{StdError}
use astroport_core.Asset.{AssetInfo, equal}

pub data ContractError : Type 0 where
  std : StdError → ContractError
  payment_error checked_from_ratio_error overflow_error conversion_overflow_error unauthorized
        duplicated_pool_found amount_exceeds_balance position_doesnt_exist reward_not_found
        too_many_reward_tokens incentivization_fee_expected blocked_token blocked_pair_type
        failed_to_parse_reply no_orphaned_rewards zero_alloc_point unsupported_migration_version
        insufficient_reward_token active_pool_invariant_broken :
      ContractError

-- Internal rewards, and external ones with the time at which the next schedule starts.
pub data RewardType : Type 0 where
  int : AssetInfo → RewardType
  ext : AssetInfo → ℕ → RewardType

unfoldable pub is_external : RewardType → Bool
is_external (int info) = false
is_external (ext info next_update_ts) = true

unfoldable pub asset_info : RewardType → AssetInfo
asset_info (int info) = info
asset_info (ext info next_update_ts) = info

-- `RewardType::matches`
unfoldable pub matches : RewardType → RewardType → Bool
matches (int i) (int j) = true
matches (int i) (ext j u) = false
matches (ext i t) (int j) = false
matches (ext i t) (ext j u) = equal i j

-- The derived `==`, by which the hash map compares.
unfoldable pub same_type : RewardType → RewardType → Bool
same_type (int i) (int j) = equal i j
same_type (int i) (ext j u) = false
same_type (ext i t) (int j) = false
same_type (ext i t) (ext j u) = equal i j && t == u

pub record RewardInfo : Type 0 where
  pub reward : RewardType
  pub rps : ℕ
  pub index : ℕ
  pub orphaned : ℕ

-- The hash maps `rewards_to_remove` and `orphaned_rewards_to_claim` are association lists.
pub record PoolInfo : Type 0 where
  pub total_lp : ℕ
  pub rewards : List RewardInfo
  pub last_update_ts : ℕ
  pub rewards_to_remove : List (RewardType × (ℕ × ℕ))
  pub orphaned_rewards_to_claim : List (AssetInfo × ℕ)

pub record UserInfo : Type 0 where
  pub amount : ℕ
  pub last_rewards_index : List (RewardType × ℕ)
  pub last_claim_time : ℕ

pub data Op : Type 0 where
  add sub : ℕ → Op
  noop : Op

pub record IncentivesSchedule : Type 0 where
  pub next_epoch_start_ts : ℕ
  pub end_ts : ℕ
  pub reward_info : AssetInfo
  pub schedule_rps : ℕ

-- The schedules of one reward of one pool: the time at which each one ends and its reward per second,
-- by ascending time.
abbrev pub Schedule : Type 0
Schedule = List (ℕ × ℕ)

-- EXTERNAL_REWARD_SCHEDULES under the key of one pool.
abbrev pub Schedules : Type 0
Schedules = AssetInfo → Schedule

-- `range` from an exclusive bound
unfoldable pub after : ℕ → Schedule → Schedule
after t [] = []
after t ((end_ts, rps) ∷ rest) =
    let later = after t rest in if ltb t end_ts then (end_ts, rps) ∷ later else later
