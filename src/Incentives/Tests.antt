-- ===== src/Incentives/Tests.antt =====
-- Concrete pools, rewards and positions of the incentives (contracts/tokenomics/incentives), and the
-- theorems at them.
mod Calls
mod Pools
use astroport_core.Common.{
  List, true, false, if◌then◌else◌, ◌==◌, none, some, ℕ, ◌≤◌, ◌+◌, ◌*◌, ◌/◌, ◌≡◌, refl, [], ◌∷◌,
  map, arith, inr,
}
use astroport_core.Cosmwasm.{
  Result, ok, err, panic, generic_err, exact, exact-IsDocumented, fractional,
}
use astroport_core.Asset.{
  Text, Addr, AssetInfo, token, native_token, Chain, Env, MessageInfo, PairInfo, xyk,
}
use astroport_core.Asset.Types.{equal, text_eq, contains}
use astroport_core.Asset.{all_unique}
use astroport_core.Incentives.Types.{
  ContractError, int, ext, asset_info, RewardInfo, PoolInfo, UserInfo, add, IncentivesSchedule,
  Schedules,
}
use astroport_core.Incentives.Accrual.{update_reward, update_rewards}
use astroport_core.Incentives.Schedules.{find_ext, incentivize, deregister_reward, with_schedule}
use astroport_core.Incentives.Collection.{outstanding}
use astroport_core.Incentives.Updates.{Distributed, update_reward-Distributed}
use astroport_core.Incentives.Funding.{outstanding_in, incentivize_extends}
use astroport_core.Incentives.Inputs.{
  epoch_length, epochs_start, InputSchedule, from_input, incentivize-from_input,
}
use astroport_core.Incentives.Deregistration.{deregister_reward-outstanding_in}
use astroport_core.Incentives.Positions.{
  user_index, calculate_reward, calculate_rewards, update_and_sync_position,
}
use astroport_core.Incentives.Payouts.{payouts, staked, payouts-Distributed}
use astroport_core.Incentives.Storage.{
  Store, Iteration, save, determine_asset_info, register_pending_transfer, reply, asset_info_key,
  orphaned_of,
}
use astroport_core.Incentives.Transfers.{
  deregister_reward-save, Waits, Settles, register_pending_transfer-reply,
}
use astroport_core.Incentives.Emissions.{deactivate_pool}
use astroport_core.Incentives.Blocklist.{
  is_owner_or, Registry, ActivePool, update_blocked_pool_tokens,
}
use astroport_core.Incentives.Points.{IsBalanced, sum_points, deactivate_pool-IsBalanced}
use astroport_core.Incentives.Activation.{FactoryQueries, setup_pools}
use astroport_core.Incentives.Chosen.{HasPoints, setup_pools-IsBalanced}
use astroport_core.Incentives.Blocked.{points_taken, update_blocked_pool_tokens-points_taken}
use astroport_core.Incentives.Claims.{nothing_of, update_and_sync_position-calculate_rewards}

abbrev luna : AssetInfo
luna = native_token (b'l' ∷ [])

-- Two units a second until 2000, then one until 3000.
abbrev reward_2 : RewardInfo
reward_2 = record { reward = ext luna 2_000; rps = 2 * fractional; index = 0; orphaned = 7 }

abbrev schedules : Schedules
schedules info = (2_000, 2 * fractional) ∷ (3_000, fractional) ∷ []

abbrev pool : PoolInfo
pool = record {
  total_lp = 100;
  rewards = reward_2 ∷ [];
  last_update_ts = 1_000;
  rewards_to_remove = [];
  orphaned_rewards_to_claim = [];
}

-- The reward at 2500, and the pool.
abbrev reward_1 : RewardInfo
reward_1 = record {
  reward = ext luna 3_000;
  rps = fractional;
  index = 25 * fractional;
  orphaned = 0;
}

abbrev updated : PoolInfo
updated = record pool { orphaned_rewards_to_claim = (luna, 7) ∷ [] }

update_run : update_reward exact 2_500 schedules 1_500 pool reward_2 ≡ ok (reward_1, updated)
unfolding update_reward asset_info
update_run = refl

update_reward-Distributed_example :
    (collected : ℕ) × (collected + outstanding 2_500 schedules reward_1
      ≡ outstanding 1_000 schedules reward_2)
    × Distributed 100 collected reward_2 reward_1 [] ((luna, 7) ∷ [])
update_reward-Distributed_example =
    update_reward-Distributed exact-IsDocumented 2_500 0 2_000 schedules luna pool updated reward_2
      reward_1 refl (omega arith) (omega arith) (omega arith, (omega arith, tt)) update_run

abbrev staker : ℕ → UserInfo
staker n = record {
  amount = n;
  last_rewards_index = (ext luna 2_000, 0) ∷ [];
  last_claim_time = 1_000;
}

payouts-Distributed_example :
    2_500 * fractional + outstanding 2_500 schedules reward_1 ≤ outstanding 1_000 schedules reward_2
unfolding user_index equal text_eq staked payouts calculate_reward
payouts-Distributed_example =
    payouts-Distributed exact-IsDocumented 2_500 0 2_000 schedules luna pool updated reward_2
      reward_1 (staker 60 ∷ staker 40 ∷ []) 2_500 refl (omega arith) (omega arith)
      (omega arith, (omega arith, tt)) update_run (refl, (refl, tt)) (omega arith) refl

-- One more unit a second until 2500.
abbrev schedule : IncentivesSchedule
schedule = record {
  next_epoch_start_ts = 1_500;
  end_ts = 2_500;
  reward_info = luna;
  schedule_rps = fractional;
}

abbrev reward_3 : RewardInfo
reward_3 = record reward_2 { rps = 3 * fractional }

abbrev extended : Schedules
unfolding with_schedule
extended =
    with_schedule luna
      ((2_000, 3 * fractional) ∷ (2_500, 2 * fractional) ∷ (3_000, fractional) ∷ []) schedules

incentivize_extends_example :
    outstanding_in 1_000 extended (reward_3 ∷ []) luna
    ≡ outstanding_in 1_000 schedules (reward_2 ∷ []) luna + fractional * 1_500
unfolding find_ext equal text_eq incentivize
incentivize_extends_example =
    incentivize_extends exact-IsDocumented 1_000 0 2_000 schedules extended pool
      (record pool { rewards = reward_3 ∷ [] }) schedule luna reward_2 refl refl (omega arith)
      (omega arith) (omega arith) (omega arith, (omega arith, tt))
      (inr (omega arith), (inr (omega arith), tt)) refl

deregister_reward-outstanding_in_example :
    3_000 ≡ (outstanding_in 1_000 schedules (reward_2 ∷ []) luna + 7) / fractional
unfolding find_ext equal text_eq deregister_reward
deregister_reward-outstanding_in_example =
    deregister_reward-outstanding_in exact-IsDocumented 2_000 schedules
      (with_schedule luna [] schedules) pool
      (record pool { rewards = []; rewards_to_remove = (ext luna 2_000, (0, 7)) ∷ [] }) luna
      reward_2 3_000 refl refl (omega arith) refl

abbrev synced : UserInfo
synced = record {
  amount = 65;
  last_rewards_index = (ext luna 3_000, 25 * fractional) ∷ [];
  last_claim_time = 2_500;
}

abbrev pool_at : ℕ → PoolInfo
pool_at total = record pool { total_lp = total; rewards = reward_1 ∷ []; last_update_ts = 2_500 }

update_and_sync_position-calculate_rewards_example :
    (calculate_rewards exact (reward_1 ∷ []) synced ≡ ok (map nothing_of (reward_1 ∷ [])))
    × (synced.last_claim_time ≡ 2_500)
unfolding update_and_sync_position
update_and_sync_position-calculate_rewards_example =
    update_and_sync_position-calculate_rewards exact-IsDocumented (add 5) (staker 60) synced
      (pool_at 100) (pool_at 105) (tt, tt) refl

-- A week of two units a second, from the start of the epochs, and an input of two weeks.
abbrev week_1 : ℕ
week_1 = epochs_start + epoch_length

abbrev week_2 : ℕ
week_2 = epochs_start + 2 * epoch_length

abbrev weekly : Schedules
weekly info = (week_1, 2 * fractional) ∷ []

abbrev weekly_pool : ℕ → PoolInfo
weekly_pool rps = record pool {
  rewards = record reward_2 { reward = ext luna week_1; rps = rps * fractional } ∷ [];
  last_update_ts = epochs_start;
}

abbrev input : InputSchedule
input = record { reward = record { info = luna; amount = 1_209_600 }; duration_periods = 1 }

abbrev two_weeks : IncentivesSchedule
two_weeks = record {
  next_epoch_start_ts = week_1;
  end_ts = week_2;
  reward_info = luna;
  schedule_rps = fractional;
}

abbrev weekly_after : Schedules
unfolding with_schedule
weekly_after = with_schedule luna ((week_1, 2 * fractional) ∷ (week_2, fractional) ∷ []) weekly

incentivize-from_input_example :
    outstanding_in epochs_start weekly_after (weekly_pool 3).rewards luna
    ≤ outstanding_in epochs_start weekly (weekly_pool 2).rewards luna + 1_209_600 * fractional
unfolding find_ext equal text_eq incentivize from_input
incentivize-from_input_example =
    incentivize-from_input exact-IsDocumented epochs_start 0 week_1 weekly weekly_after
      (weekly_pool 2) (weekly_pool 3) input two_weeks luna
      (record reward_2 { reward = ext luna week_1; rps = 2 * fractional }) refl refl refl
      (omega arith) (omega arith) (omega arith, tt) (inr (omega arith), tt) refl

-- Seven and a half orphaned units, in a storage with none.
abbrev reward_orphaned : RewardInfo
reward_orphaned = record reward_2 { orphaned = 7 * fractional + fractional / 2 }

abbrev pool_orphaned : PoolInfo
pool_orphaned = record pool { rewards = reward_orphaned ∷ [] }

abbrev pool_without : PoolInfo
pool_without = record pool_orphaned {
  rewards = [];
  rewards_to_remove = (ext luna 2_000, (0, 7 * fractional + fractional / 2)) ∷ [];
}

abbrev lp : AssetInfo
lp = native_token (b'p' ∷ [])

abbrev in_order : Iteration
in_order = record { of_removed = λ l. l; of_orphaned = λ l. l; of_groups = λ l. l }

abbrev storage : Store
storage = record {
  config = record {
    owner = [];
    factory = [];
    generator_controller = none;
    reward_token = luna;
    reward_per_second = 0;
    total_alloc_points = 0;
    guardian = none;
    incentivization_fee_info = none;
    token_transfer_gas_limit = none;
  };
  proposal = none;
  active_pools = [];
  blocked = λ a. false;
  pools = λ a. none;
  schedules = λ a. schedules;
  finished = λ a. [];
  positions = λ a. [];
  orphaned_rewards = [];
  next_reply_id = 1_000;
  pending = λ id. none;
}

abbrev saved : Store
saved = record storage {
  pools = λ a. if equal a lp then some (record pool_without { rewards_to_remove = [] }) else none;
  orphaned_rewards = (asset_info_key luna, 7) ∷ [];
}

deregister_reward-save_example :
    (3_007
      ≡ (outstanding_in 1_000 schedules (reward_orphaned ∷ []) luna
          + (7 * fractional + fractional / 2))
        / fractional)
    × (orphaned_of saved luna ≡ 7)
unfolding find_ext equal text_eq deregister_reward save
deregister_reward-save_example =
    deregister_reward-save exact-IsDocumented in_order lp luna 2_000 schedules
      (with_schedule luna [] schedules) pool_orphaned pool_without storage saved reward_orphaned
      3_007 refl refl refl refl refl refl (omega arith) (omega arith) refl refl

abbrev waiting : Store
waiting = record storage {
  next_reply_id = 1_001;
  pending =
      λ id. if id == 1_000 then some (record { reward_key = luna; pending_amount = 5 }) else none;
}

-- Another transfer is registered before the reply comes.
abbrev later : Store
later = record waiting {
  next_reply_id = 1_002;
  pending = λ id.
      if id == 1_001
      then some (record { reward_key = lp; pending_amount = 7 })
      else waiting.pending id;
}

abbrev failed : Store
failed = record later {
  pending = λ other. if other == 1_000 then none else later.pending other;
  orphaned_rewards = (asset_info_key luna, 5) ∷ [];
}

register_pending_transfer-reply_example :
    Waits 1_000 luna 5 storage waiting × Settles 1_000 false luna 5 later failed
unfolding register_pending_transfer reply
register_pending_transfer-reply_example =
    register_pending_transfer-reply exact-IsDocumented luna 5 1_000 false storage waiting later
      failed (omega arith) refl refl refl
