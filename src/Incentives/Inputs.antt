-- ===== src/Incentives/Inputs.antt =====
-- The schedule that an input gives (packages/astroport/src/incentives.rs,
-- `IncentivesSchedule::from_input`), and that it promises no more than is paid for it.
use astroport_core.Common.{
  ℕ, some, ltb, ◌==◌, ◌||◌, ◌+◌, ◌-◌, ◌*◌, ◌/◌, ◌%◌, ◌≤◌, ◌<◌, ◌≡◌, ap, arith, not_ltb,
}
use astroport_core.Common.Arith.{div-mul-le}
use astroport_core.Cosmwasm.{
  Result, ok, StdError, generic_err, Math, exact, IsDocumented, eq-exact, exact-IsDocumented, ◌>>=◌,
  ◌>>◌, or_panic, fail_if, fractional,
}
use astroport_core.Cosmwasm.Inversion.{fail_if-ok, sub?-ok, ratio?-ok, ok-inj}
use astroport_core.Asset.{Asset, AssetInfo}
use astroport_core.Incentives.Types.{ext, RewardInfo, PoolInfo, IncentivesSchedule, Schedules}
use astroport_core.Incentives.Schedules.{find_ext, incentivize}
use astroport_core.Incentives.Conservation.{Ascends}
use astroport_core.Incentives.Extension.{Clear}
use astroport_core.Incentives.Funding.{outstanding_in, incentivize_extends}

abbrev pub epoch_length : ℕ
epoch_length = 604_800

abbrev pub epochs_start : ℕ
epochs_start = 1_696_809_600

abbrev pub max_periods : ℕ
max_periods = 25

pub record InputSchedule : Type 0 where
  pub reward : Asset
  pub duration_periods : ℕ

-- The first multiple of an epoch after a time. The sums and products of `from_input` are far below
-- 2^64: the remainder is below the start of the epochs, and there are at most 25 periods.
unfoldable pub next_epoch_start : ℕ → ℕ
next_epoch_start block_ts =
    epochs_start + (block_ts % epochs_start / epoch_length + 1) * epoch_length

unfoldable pub from_input : Math → ℕ → InputSchedule → Result StdError IncentivesSchedule
unfolding next_epoch_start
from_input m block_ts input = do
  fail_if (ltb max_periods input.duration_periods || input.duration_periods == 0)
      (generic_err "Duration must be more 0 and less than or equal to 25")
  let end_ts = next_epoch_start block_ts + input.duration_periods * epoch_length
  seconds ← or_panic (m.checked_sub end_ts block_ts)
  rps ← or_panic (m.from_ratio 256 input.reward.amount seconds)
  fail_if (ltb rps fractional) (generic_err "Reward per second must be at least 1 unit")
  ok (record {
    next_epoch_start_ts = next_epoch_start block_ts;
    end_ts = end_ts;
    reward_info = input.reward.info;
    schedule_rps = rps;
  })

-- What a schedule promises, against what is paid for it.
from_input-exact :
    (now : ℕ) (input : InputSchedule) (schedule : IncentivesSchedule)
    → from_input exact now input ≡ ok schedule
    → (now < schedule.end_ts)
      × (fractional ≤ schedule.schedule_rps)
      × (schedule.schedule_rps * (schedule.end_ts - now) ≤ input.reward.amount * fractional)
unfolding from_input
from_input-exact now input schedule run =
    let (_, h1) = fail_if-ok _ _ _ run in
    let end_ts = next_epoch_start now + input.duration_periods * epoch_length in
    let (_, h2) = sub?-ok _ end_ts now h1 in
    let (positive, _, h3) = ratio?-ok _ 256 input.reward.amount fractional (end_ts - now) h2 in
    let (enough, h4) = fail_if-ok _ _ _ h3 in
    let same = ok-inj h4 in
    let ends : end_ts ≡ schedule.end_ts = ap (λ s. s.end_ts) same in
    let rate : input.reward.amount * fractional / (end_ts - now) ≡ schedule.schedule_rps =
      ap (λ s. s.schedule_rps) same in
    rw⁻¹ (ends, rate)
      (
        omega (arith, positive),
        not_ltb _ _ enough,
        div-mul-le (input.reward.amount * fractional) (end_ts - now),
      )

-- Rewards that are paid for in advance are enough: when an input is turned into a schedule and added to
-- a pool that pays the asset already, what the pool has to pay of the asset grows by at most the amount
-- of the input. It is about a reward whose next update is still to come and not before the epoch in
-- which the new schedule starts, with stored schedules in ascending order of which none ends after now
-- and before that update.
pub incentivize-from_input :
    {m : Math}
    → IsDocumented m
    → (now start next_update_ts : ℕ) (schedules schedules' : Schedules) (pool pool' : PoolInfo)
      (input : InputSchedule) (schedule : IncentivesSchedule) (reward_token : AssetInfo)
      (r : RewardInfo)
    → from_input m now input ≡ ok schedule
    → find_ext schedule.reward_info pool.rewards ≡ some r
    → r.reward ≡ ext schedule.reward_info next_update_ts
    → now < next_update_ts
    → schedule.next_epoch_start_ts ≤ next_update_ts
    → Ascends start (schedules schedule.reward_info)
    → Clear now next_update_ts (schedules schedule.reward_info)
    → incentivize m schedules pool schedule reward_token ≡ ok (pool', schedules')
    → outstanding_in now schedules' pool'.rewards schedule.reward_info
      ≤ outstanding_in now schedules pool.rewards schedule.reward_info
        + input.reward.amount * fractional
incentivize-from_input d =
    rw (eq-exact d)
      λ now start next schedules schedules' pool pool' input schedule paid_in r given found type k e
          a c run.
        let (later, _, funded) = from_input-exact now input schedule given in
        let adds =
          incentivize_extends exact-IsDocumented now start next schedules schedules' pool pool'
            schedule paid_in r found type later k e a c run in
        omega arith
