-- ===== src/Incentives/Funding.antt =====
-- Adding an external reward to a pool that has it already, as a whole.
use astroport_core.Common.{
  ℕ, true, none, some, List, [], ◌∷◌, ltb, leb, if◌then◌else◌, ◌+◌, ◌-◌, ◌*◌, ◌≤◌, ◌<◌, ◌≡◌, refl,
  sym, ap, ◌∙◌, inl, inr, Bool-cases, leb→le, not_leb,
}
use astroport_core.Cosmwasm.{ok, Math, exact, IsDocumented, eq-exact}
use astroport_core.Cosmwasm.Inversion.{bind-ok, fits-ok, ok-inj}
use astroport_core.Asset.{AssetInfo}
use astroport_core.Asset.Equality.{equal_refl}
use astroport_core.Incentives.Types.{
  ext, RewardInfo, PoolInfo, IncentivesSchedule, Schedule, Schedules, after,
}
use astroport_core.Incentives.Schedules.{
  is_ext, find_ext, replace_ext, save_each, overlap, with_schedule, extend, incentivize,
}
use astroport_core.Incentives.Conservation.{Ascends, unpaid}
use astroport_core.Incentives.Collection.{outstanding, outstanding_of, outstanding_running}
use astroport_core.Incentives.Extension.{Clear, overlap-overlaid, unpaid_within, unpaid_beyond}

-- What a pool is still to pay of an external reward.
abbrev pub outstanding_in : ℕ → Schedules → List RewardInfo → AssetInfo → ℕ
outstanding_in now schedules rewards asset = elim (find_ext asset rewards) [
  | none ↦ 0
  | some r ↦ outstanding now schedules r
]

pub outstanding_found :
    (now : ℕ) (schedules : Schedules) (rewards : List RewardInfo) (asset : AssetInfo)
    (r : RewardInfo)
    → find_ext asset rewards ≡ some r
    → outstanding_in now schedules rewards asset ≡ outstanding now schedules r
outstanding_found now schedules rewards asset r h =
    ap (λ o. elim o [ none ↦ 0 | some x ↦ outstanding now schedules x ]) h

find_ext-replace_ext :
    (asset : AssetInfo) (r by : RewardInfo) (rewards : List RewardInfo)
    → is_ext asset by.reward ≡ true
    → find_ext asset rewards ≡ some r
    → find_ext asset (replace_ext asset (by ∷ []) rewards) ≡ some by
unfolding find_ext replace_ext
find_ext-replace_ext asset r by [] e h = cc
find_ext-replace_ext asset r by (x ∷ rest) e h = elim (Bool-cases (is_ext asset x.reward)) [
  | inl found ↦ rw found (rw e refl)
  | inr other ↦
      rw other (rw other (find_ext-replace_ext asset r by rest e (rw (other, find_ext) at h)))
]

-- A reward of the new type is outstanding by its stored schedules.
outstanding_with :
    (now ts rps : ℕ) (asset : AssetInfo) (stored : Schedule) (schedules : Schedules)
    → now < ts
    → outstanding_of now (with_schedule asset stored schedules) rps (ext asset ts)
      ≡ unpaid now stored rps ts
unfolding with_schedule
outstanding_with now ts rps asset stored schedules h =
    outstanding_running now (with_schedule asset stored schedules) rps asset ts h
    ∙ rw (equal_refl asset) refl

module _ (now start next_update_ts : ℕ) (r : RewardInfo) (schedule : IncentivesSchedule)
    (stored : Schedule) (h : now < schedule.end_ts) (k : now < next_update_ts)
    (e : schedule.next_epoch_start_ts ≤ next_update_ts) (a : Ascends start stored)
    (c : Clear now next_update_ts stored) where
  extend_adds :
      (next_ts : ℕ) (to_save : Schedule)
      → extend exact stored schedule r next_update_ts ≡ ok (next_ts, to_save)
      → (now < next_ts)
        × (unpaid now (save_each to_save stored) (r.rps + schedule.schedule_rps) next_ts
            ≡ unpaid now stored r.rps next_update_ts
              + schedule.schedule_rps * (schedule.end_ts - now))
  unfolding extend
  extend_adds next_ts to_save run = elim (Bool-cases (leb schedule.end_ts next_update_ts)) [
    | inl within ↦
        let same = ok-inj (rw (within, extend) at run) in
        let first : schedule.end_ts ≡ next_ts = ap (λ x. x.0) same in
        let second : (if ltb schedule.end_ts next_update_ts
              then (next_update_ts, r.rps) ∷ []
              else [])
            ≡ to_save =
          ap (λ x. x.1) same in
        rw⁻¹ (first, second)
          (
            h,
            unpaid_within now next_update_ts schedule.end_ts r.rps schedule.schedule_rps start
                stored h k a (leb→le _ _ within) c,
          )
    | inr beyond ↦
        let (ks, is, h1) =
          bind-ok
            (overlap exact schedule.end_ts schedule.schedule_rps
              (after schedule.next_epoch_start_ts stored))
            _ (rw (beyond, extend) at run) in
        let same = ok-inj h1 in
        let first : next_update_ts ≡ next_ts = ap (λ x. x.0) same in
        let second : ks ≡ to_save = ap (λ x. x.1) same in
        let pure = overlap-overlaid _ _ _ ks is in
        rw⁻¹ (first, second)
          (
            k,
            rw pure (
                unpaid_beyond now next_update_ts schedule.end_ts r.rps schedule.schedule_rps start
                  stored h k a schedule.next_epoch_start_ts (not_leb _ _ beyond) e),
          )
  ]

incentivize-exact :
    (now start next_update_ts : ℕ) (schedules schedules' : Schedules) (pool pool' : PoolInfo)
    (schedule : IncentivesSchedule) (reward_token : AssetInfo) (r : RewardInfo)
    → find_ext schedule.reward_info pool.rewards ≡ some r
    → r.reward ≡ ext schedule.reward_info next_update_ts
    → now < schedule.end_ts
    → now < next_update_ts
    → schedule.next_epoch_start_ts ≤ next_update_ts
    → Ascends start (schedules schedule.reward_info)
    → Clear now next_update_ts (schedules schedule.reward_info)
    → incentivize exact schedules pool schedule reward_token ≡ ok (pool', schedules')
    → outstanding_in now schedules' pool'.rewards schedule.reward_info
      ≡ outstanding_in now schedules pool.rewards schedule.reward_info
        + schedule.schedule_rps * (schedule.end_ts - now)
unfolding incentivize is_ext
incentivize-exact now start next schedules schedules' pool pool' schedule reward_token r found type
      h k e a c run =
    let (result, extends, h1) =
      bind-ok (extend exact (schedules schedule.reward_info) schedule r next) _
        (rw (found, type, incentivize) at run) in
    let (later, adds) =
      extend_adds now start next r schedule (schedules schedule.reward_info) h k e a c result.0
        result.1 extends in
    let (_, h2) = fits-ok _ 256 (r.rps + schedule.schedule_rps) h1 in
    let same = ok-inj h2 in
    let rewards = ap (λ x. x.0.rewards) same in
    let stored = ap (λ x. x.1) same in
    let by = record r {
      reward = ext schedule.reward_info result.0;
      rps = r.rps + schedule.schedule_rps;
    } in
    let kept =
      find_ext-replace_ext schedule.reward_info r by pool.rewards (equal_refl schedule.reward_info)
        found in
    let old =
      outstanding_found now schedules pool.rewards schedule.reward_info r found
      ∙ (ap (λ t. outstanding_of now schedules r.rps t) type
          ∙ outstanding_running now schedules r.rps schedule.reward_info next k) in
    rw⁻¹ (rewards, stored)
      (outstanding_found now
          (with_schedule schedule.reward_info (save_each result.1 (schedules schedule.reward_info))
            schedules)
          (replace_ext schedule.reward_info (by ∷ []) pool.rewards) schedule.reward_info by kept
        ∙ (outstanding_with now result.0 by.rps schedule.reward_info
              (save_each result.1 (schedules schedule.reward_info)) schedules later
            ∙ (adds ∙ ap (λ n. n + schedule.schedule_rps * (schedule.end_ts - now)) (sym old))))

-- Adding rewards of an asset to a pool that pays it already: the pool has to pay exactly the new rate
-- for the seconds from now to the end of the new schedule on top of what it had to pay, wherever after
-- now the new schedule ends. It is about a reward whose next update is still to come and not before the
-- epoch in which the new schedule starts, with stored schedules in ascending order of which none ends
-- after now and before that update.
pub incentivize_extends :
    {m : Math}
    → IsDocumented m
    → (now start next_update_ts : ℕ) (schedules schedules' : Schedules) (pool pool' : PoolInfo)
      (schedule : IncentivesSchedule) (reward_token : AssetInfo) (r : RewardInfo)
    → find_ext schedule.reward_info pool.rewards ≡ some r
    → r.reward ≡ ext schedule.reward_info next_update_ts
    → now < schedule.end_ts
    → now < next_update_ts
    → schedule.next_epoch_start_ts ≤ next_update_ts
    → Ascends start (schedules schedule.reward_info)
    → Clear now next_update_ts (schedules schedule.reward_info)
    → incentivize m schedules pool schedule reward_token ≡ ok (pool', schedules')
    → outstanding_in now schedules' pool'.rewards schedule.reward_info
      ≡ outstanding_in now schedules pool.rewards schedule.reward_info
        + schedule.schedule_rps * (schedule.end_ts - now)
incentivize_extends d = rw (eq-exact d) incentivize-exact
