-- ===== src/Incentives/Schedules.antt =====
-- Adding external rewards to a pool and taking them off it
-- (contracts/tokenomics/incentives/src/state.rs, `PoolInfo::incentivize`, `deregister_reward`).
use astroport_core.Common.{
  ℕ, zero, suc, Bool, true, false, Option, none, some, List, [], ◌∷◌, ◌++◌, ◌&&◌, not, ltb, leb,
  ◌==◌, if◌then◌else◌, ◌/◌,
}
use astroport_core.Cosmwasm.{
  Result, ok, panic, Math, ◌>>=◌, ◌>>◌, or_panic, or_err, fail_if, fractional,
}
use astroport_core.Asset.{AssetInfo, equal}
use astroport_core.Incentives.Types.{
  ContractError, conversion_overflow_error, too_many_reward_tokens, reward_not_found, RewardType,
  int, ext, is_external, RewardInfo, PoolInfo, IncentivesSchedule, Schedule, Schedules, after,
}
use astroport_core.Incentives.Accrual.{accrued, insert_entry}

abbrev pub max_reward_tokens : ℕ
max_reward_tokens = 5

-- `matches!(&r.reward, RewardType::Ext { info, .. } if info == asset)`
unfoldable pub is_ext : AssetInfo → RewardType → Bool
is_ext asset (int info) = false
is_ext asset (ext info next_update_ts) = equal info asset

-- The first such reward of a pool.
unfoldable pub find_ext : AssetInfo → List RewardInfo → Option RewardInfo
unfolding is_ext
find_ext asset [] = none
find_ext asset (r ∷ rest) =
    let later = find_ext asset rest in if is_ext asset r.reward then some r else later

-- The rewards with that one changed, or without it.
unfoldable pub replace_ext : AssetInfo → List RewardInfo → List RewardInfo → List RewardInfo
unfolding is_ext
replace_ext asset by [] = []
replace_ext asset by (r ∷ rest) =
    let later = replace_ext asset by rest in if is_ext asset r.reward then by ++ rest else r ∷ later

unfoldable pub count_ext : List RewardInfo → ℕ
unfolding is_external
count_ext [] = zero
count_ext (r ∷ rest) = let more = count_ext rest in if is_external r.reward then suc more else more

-- `save` and `remove` of a key of the schedules of a reward.
unfoldable pub save_rps : ℕ → ℕ → Schedule → Schedule
save_rps ts rps [] = (ts, rps) ∷ []
save_rps ts rps ((e, r) ∷ rest) =
    let later = save_rps ts rps rest in
    if e == ts
    then (ts, rps) ∷ rest
    else if ltb ts e
    then (ts, rps) ∷ (e, r) ∷ rest
    else (e, r) ∷ later

unfoldable pub save_each : Schedule → Schedule → Schedule
unfolding save_rps
save_each [] schedule = schedule
save_each ((ts, rps) ∷ rest) schedule = save_each rest (save_rps ts rps schedule)

unfoldable pub remove_rps : ℕ → Schedule → Schedule
remove_rps ts [] = []
remove_rps ts ((e, r) ∷ rest) =
    let later = remove_rps ts rest in if e == ts then later else (e, r) ∷ later

unfoldable pub with_schedule : AssetInfo → Schedule → Schedules → Schedules
with_schedule asset schedule schedules info = if equal info asset then schedule else schedules info

module _ (m : Math) where
  -- The loop over the schedules that the new one overlaps.
  unfoldable pub overlap : ℕ → ℕ → Schedule → Result ContractError Schedule
  overlap end_ts rps [] = ok ((end_ts, rps) ∷ [])
  overlap end_ts rps ((e, r) ∷ rest) = elim (leb end_ts e) [
    | true ↦ do sum ← or_panic (m.checked_add 256 r rps); ok ((end_ts, sum) ∷ [])
    | false ↦ do
      sum ← or_panic (m.checked_add 256 r rps)
      more ← overlap end_ts rps rest
      ok ((e, sum) ∷ more)
  ]

  -- A reward that has a schedule: its new end, and the schedules to save.
  unfoldable pub extend :
      Schedule → IncentivesSchedule → RewardInfo → ℕ → Result ContractError (ℕ × Schedule)
  unfolding overlap after
  extend stored schedule r next_update_ts = elim (leb schedule.end_ts next_update_ts) [
    | true ↦ ok (
      schedule.end_ts,
      (if ltb schedule.end_ts next_update_ts then (next_update_ts, r.rps) ∷ [] else []),
    )
    | false ↦ do
      to_save ←
          overlap schedule.end_ts schedule.schedule_rps (after schedule.next_epoch_start_ts stored)
      ok (next_update_ts, to_save)
  ]

  unfoldable pub incentivize :
      Schedules
      → PoolInfo
      → IncentivesSchedule
      → AssetInfo
      → Result ContractError (PoolInfo × Schedules)
  unfolding find_ext replace_ext count_ext save_each with_schedule extend
  incentivize schedules pool schedule reward_token =
      elim (find_ext schedule.reward_info pool.rewards) [
        | none ↦ do
          fail_if
              (count_ext pool.rewards == max_reward_tokens
                && not (equal schedule.reward_info reward_token))
              too_many_reward_tokens
          ok (
            record pool {
              rewards =
                  pool.rewards
                  ++ record {
                    reward = ext schedule.reward_info schedule.end_ts;
                    rps = schedule.schedule_rps;
                    index = 0;
                    orphaned = 0;
                  }
                    ∷ [];
            },
            schedules,
          )
        | some r ↦ elim r.reward [
          | int info ↦ panic
          | ext info next_update_ts ↦ do
            (next_ts, to_save) ← extend (schedules schedule.reward_info) schedule r next_update_ts
            rps ← or_panic (m.checked_add 256 r.rps schedule.schedule_rps)
            ok (
              record pool {
                rewards =
                    replace_ext schedule.reward_info
                      (record r { reward = ext schedule.reward_info next_ts; rps = rps } ∷ [])
                      pool.rewards;
              },
              with_schedule schedule.reward_info
                  (save_each to_save (schedules schedule.reward_info)) schedules,
            )
        ]
      ]

  -- The rewards of the schedules to come.
  unfoldable pub upcoming : Schedule → ℕ → ℕ → Result ContractError ℕ
  unfolding accrued
  upcoming [] prev_time remaining = ok remaining
  upcoming ((update_ts, period_rps) ∷ rest) prev_time remaining = do
    span ← or_panic (m.checked_sub update_ts prev_time)
    gained ← accrued m period_rps span
    remaining' ← or_panic (m.checked_add 256 remaining gained)
    upcoming rest update_ts remaining'

-- All keys of the one list are removed from the other.
unfoldable pub remove_each : Schedule → Schedule → Schedule
unfolding remove_rps
remove_each [] schedule = schedule
remove_each ((ts, rps) ∷ rest) schedule = remove_each rest (remove_rps ts schedule)

-- The reward that is taken off, the pool without it and the schedules that stay; the answer is what to
-- send back.
unfoldable pub deregister_reward :
    Math
    → Schedules
    → PoolInfo
    → AssetInfo
    → Bool
    → Result ContractError (PoolInfo × (Schedules × ℕ))
unfolding find_ext replace_ext with_schedule upcoming accrued after insert_entry remove_each
    remove_rps
deregister_reward m schedules pool reward_asset bypass_upcoming_schedules = do
  r ← or_err reward_not_found (find_ext reward_asset pool.rewards)
  elim r.reward [
    | int info ↦ panic
    | ext info next_update_ts ↦ do
      current ← accrued m r.rps (m.saturating_sub next_update_ts pool.last_update_ts)
      let stored = remove_rps next_update_ts (schedules reward_asset)
      let later = after next_update_ts stored
      remaining ← elim bypass_upcoming_schedules [
        | true ↦ ok current
        | false ↦ upcoming m later next_update_ts current
      ]
      total ← or_panic (m.checked_add 256 remaining r.orphaned)
      amount ← or_err conversion_overflow_error (m.try_into 128 (total / fractional))
      ok (
        record pool {
          rewards = replace_ext reward_asset [] pool.rewards;
          rewards_to_remove = insert_entry r.reward (r.index, r.orphaned) pool.rewards_to_remove;
        },
        (
          with_schedule reward_asset
              (if bypass_upcoming_schedules then stored else remove_each later stored) schedules,
          amount,
        ),
      )
  ]
