-- ===== src/Incentives/Accrual.antt =====
-- The accrual of rewards (contracts/tokenomics/incentives/src/state.rs, `PoolInfo::update_rewards`).
use astroport_core.Common.{ℕ, Bool, true, false, List, [], ◌∷◌, ltb, leb, ◌==◌, if◌then◌else◌}
use astroport_core.Cosmwasm.{Result, ok, StdError, Math, ◌>>=◌, or_panic}
use astroport_core.Asset.{AssetInfo, equal}
use astroport_core.Incentives.Types.{
  RewardType, int, ext, asset_info, same_type, RewardInfo, PoolInfo, Schedule, Schedules, after,
}

module _ (m : Math) where
  -- `rps * Decimal256::from_ratio(seconds, 1u8)`
  unfoldable pub accrued : {E : Type 0} → ℕ → ℕ → Result E ℕ
  accrued rps seconds = do
    span ← or_panic (m.from_ratio 256 seconds 1)
    or_panic (m.decimal_mul 256 rps span)

-- The variables of the loop over the schedules that passed.
pub record Progress : Type 0 where
  pub collected_rewards : ℕ
  pub next_ts : ℕ
  pub time_passed : ℕ
  pub reward_info : RewardInfo

module _ (m : Math) (block_ts : ℕ) (info : AssetInfo) where
  -- The loop over the schedules.
  unfoldable pub process_schedules : Schedule → Progress → Result StdError Progress
  unfolding accrued
  process_schedules [] p = ok p
  process_schedules ((update_ts, period_rps) ∷ rest) p = elim (ltb block_ts update_ts) [
    | true ↦ do
      time_passed ← or_panic (m.checked_sub block_ts p.next_ts)
      ok (record p {
        reward_info = record (p.reward_info) { rps = period_rps; reward = ext info update_ts };
        time_passed = time_passed;
        next_ts = update_ts;
      })
    | false ↦ do
      span ← or_panic (m.checked_sub update_ts p.next_ts)
      gained ← accrued m period_rps span
      collected ← or_panic (m.checked_add 256 p.collected_rewards gained)
      process_schedules rest (record p { collected_rewards = collected; next_ts = update_ts })
  ]

module _ (m : Math) (block_ts last_update_ts : ℕ) where
  -- The part on external rewards: the schedules up to now, and whether the reward ended.
  unfoldable pub pass_schedules :
      Schedules → ℕ → RewardInfo → RewardType → Result StdError (Progress × Bool)
  unfolding accrued process_schedules after
  pass_schedules schedules passed r (int info) =
      ok (
        record { collected_rewards = 0; next_ts = 0; time_passed = passed; reward_info = r },
        false,
      )
  pass_schedules schedules passed r (ext info next_update_ts) = elim (leb next_update_ts block_ts) [
    | false ↦ ok (
      record {
        collected_rewards = 0;
        next_ts = next_update_ts;
        time_passed = passed;
        reward_info = r;
      },
      false,
    )
    | true ↦ do
      span ← or_panic (m.checked_sub next_update_ts last_update_ts)
      collected ← accrued m r.rps span
      p ← process_schedules m block_ts info (after next_update_ts (schedules info)) (record {
        collected_rewards = collected;
        next_ts = next_update_ts;
        time_passed = passed;
        reward_info = r;
      })
      let need_remove = leb p.next_ts block_ts
      ok (
        (if need_remove then record p { reward_info = record (p.reward_info) { rps = 0 } } else p),
        need_remove,
      )
  ]

-- What is collected since the last update, with the reward as it goes on.
pub record Collected : Type 0 where
  pub collected : ℕ
  pub updated : RewardInfo
  pub need_remove : Bool

module _ (m : Math) (block_ts last_update_ts : ℕ) where
  unfoldable pub collect : Schedules → ℕ → RewardInfo → Result StdError Collected
  unfolding accrued pass_schedules
  collect schedules passed r = do
    (p, need_remove) ← pass_schedules m block_ts last_update_ts schedules passed r r.reward
    current ← accrued m p.reward_info.rps p.time_passed
    collected ← or_panic (m.checked_add 256 p.collected_rewards current)
    ok (record { collected = collected; updated = p.reward_info; need_remove = need_remove })

-- The entry of `orphaned_rewards_to_claim` with an amount added.
unfoldable pub add_orphaned :
    {E : Type 0} → Math → AssetInfo → ℕ → List (AssetInfo × ℕ) → Result E (List (AssetInfo × ℕ))
add_orphaned m info amount [] = ok ((info, amount) ∷ [])
add_orphaned m info amount ((other, held) ∷ rest) = elim (equal other info) [
  | true ↦ do total ← or_panic (m.checked_add 256 held amount); ok ((other, total) ∷ rest)
  | false ↦ do more ← add_orphaned m info amount rest; ok ((other, held) ∷ more)
]

-- The share of each LP token, or all to the orphaned rewards while there is none.
unfoldable pub distribute :
    Math
    → ℕ
    → ℕ
    → RewardInfo
    → List (AssetInfo × ℕ)
    → Result StdError (RewardInfo × List (AssetInfo × ℕ))
unfolding add_orphaned
distribute m total_lp collected r claims = elim (total_lp == 0) [
  | true ↦ do
    orphaned ← or_panic (m.checked_add 256 r.orphaned collected)
    ok (record r { orphaned = orphaned }, claims)
  | false ↦ do
    claims' ← elim (r.orphaned == 0) [
      | true ↦ ok claims
      | false ↦ add_orphaned m (asset_info r.reward) r.orphaned claims
    ]
    lp ← or_panic (m.from_ratio 256 total_lp 1)
    share ← or_panic (m.from_ratio 256 collected lp)
    index ← or_panic (m.checked_add 256 r.index share)
    ok (record r { orphaned = 0; index = index }, claims')
]

module _ {V : Type 0} where
  -- `HashMap::contains_key`
  unfoldable pub contains_key : List (RewardType × V) → RewardType → Bool
  contains_key [] k = false
  contains_key ((j, v) ∷ rest) k =
      let more = contains_key rest k in if same_type j k then true else more

  -- `HashMap::insert`
  unfoldable pub insert_entry : RewardType → V → List (RewardType × V) → List (RewardType × V)
  insert_entry k v [] = (k, v) ∷ []
  insert_entry k v ((j, w) ∷ rest) =
      let more = insert_entry k v rest in if same_type j k then (j, v) ∷ rest else (j, w) ∷ more

-- The body of the loop over the rewards: the reward, with the two hash maps of the pool.
unfoldable pub update_reward :
    Math → ℕ → Schedules → ℕ → PoolInfo → RewardInfo → Result StdError (RewardInfo × PoolInfo)
unfolding collect distribute insert_entry
update_reward m block_ts schedules passed pool r = do
  c ← collect m block_ts pool.last_update_ts schedules passed r
  (r', claims) ← distribute m pool.total_lp c.collected c.updated pool.orphaned_rewards_to_claim
  let removed =
      if c.need_remove
      then insert_entry r'.reward (r'.index, r'.orphaned) pool.rewards_to_remove
      else pool.rewards_to_remove
  ok (r', record pool { rewards_to_remove = removed; orphaned_rewards_to_claim = claims })

unfoldable pub update_each :
    Math
    → ℕ
    → Schedules
    → ℕ
    → PoolInfo
    → List RewardInfo
    → Result StdError (List RewardInfo × PoolInfo)
unfolding update_reward
update_each m block_ts schedules passed pool [] = ok ([], pool)
update_each m block_ts schedules passed pool (r ∷ rest) = do
  (r', pool') ← update_reward m block_ts schedules passed pool r
  (rest', pool'') ← update_each m block_ts schedules passed pool' rest
  ok (r' ∷ rest', pool'')

-- `retain`: the rewards that did not end.
unfoldable pub retain : List (RewardType × (ℕ × ℕ)) → List RewardInfo → List RewardInfo
unfolding contains_key
retain removed [] = []
retain removed (r ∷ rest) =
    let more = retain removed rest in if contains_key removed r.reward then more else r ∷ more

unfoldable pub update_rewards : Math → ℕ → Schedules → PoolInfo → Result StdError PoolInfo
unfolding update_each retain
update_rewards m block_ts schedules pool =
    let passed = m.saturating_sub block_ts pool.last_update_ts in
    elim (passed == 0) [
      | true ↦ ok pool
      | false ↦ do
        (rewards, pool') ← update_each m block_ts schedules passed pool pool.rewards
        ok (record pool' {
          rewards = retain pool'.rewards_to_remove rewards;
          last_update_ts = block_ts;
        })
    ]
