-- ===== src/Incentives/Deregistration.antt =====
-- What is sent back when a reward is taken off a pool.
use astroport_core.Common.{
  ℕ, false, some, [], ◌∷◌, ◌+◌, ◌-◌, ◌/◌, ◌<◌, ◌≡◌, refl, sym, ap, ◌∙◌, arith,
}
use astroport_core.Cosmwasm.{ok, Math, exact, IsDocumented, eq-exact, fractional}
use astroport_core.Cosmwasm.Inversion.{bind-ok, fits-ok, fits_err-ok, sub?-ok, ok-inj}
use astroport_core.Asset.{AssetInfo}
use astroport_core.Incentives.Types.{
  conversion_overflow_error, ext, RewardInfo, PoolInfo, Schedule, Schedules, after,
}
use astroport_core.Incentives.Accrual.{accrued, insert_entry}
use astroport_core.Incentives.Schedules.{find_ext, remove_rps, upcoming, deregister_reward}
use astroport_core.Incentives.Conservation.{future, unpaid, accrued-exact}
use astroport_core.Incentives.Collection.{outstanding_of, outstanding_running}
use astroport_core.Incentives.Funding.{outstanding_in, outstanding_found}

upcoming-exact :
    (l : Schedule) (t remaining total : ℕ)
    → upcoming exact l t remaining ≡ ok total
    → total ≡ remaining + future t l
unfolding upcoming future
upcoming-exact [] t remaining total h = let is : remaining ≡ total = ok-inj h in omega (arith, is)
upcoming-exact ((e, r) ∷ l) t remaining total h =
    let (_, h1) = sub?-ok _ e t h in
    let (gained, is, h2) = bind-ok (accrued exact r (e - t)) _ h1 in
    let (_, h3) = fits-ok _ 256 (remaining + gained) h2 in
    let rest = upcoming-exact l e (remaining + gained) total h3 in
    let value = accrued-exact r (e - t) gained is in omega arith

after-remove_rps : (t : ℕ) (l : Schedule) → after t (remove_rps t l) ≡ after t l
unfolding after remove_rps
after-remove_rps t [] = refl
after-remove_rps t ((e, r) ∷ l) = ground (arith, after-remove_rps t l)

pub deregister-exact :
    (next_ts : ℕ) (schedules schedules' : Schedules) (pool pool' : PoolInfo) (asset : AssetInfo)
    (r : RewardInfo) (amount : ℕ)
    → find_ext asset pool.rewards ≡ some r
    → r.reward ≡ ext asset next_ts
    → pool.last_update_ts < next_ts
    → deregister_reward exact schedules pool asset false ≡ ok (pool', (schedules', amount))
    → (amount
        ≡ (outstanding_in pool.last_update_ts schedules pool.rewards asset + r.orphaned)
          / fractional)
      × (pool'.rewards_to_remove
          ≡ insert_entry r.reward (r.index, r.orphaned) pool.rewards_to_remove)
      × (pool'.orphaned_rewards_to_claim ≡ pool.orphaned_rewards_to_claim)
unfolding deregister_reward unpaid
deregister-exact next_ts schedules schedules' pool pool' asset r amount found type h run =
    let (current, is, h1) =
      bind-ok (accrued exact r.rps (next_ts - pool.last_update_ts)) _
        (rw (found, type, deregister_reward) at run) in
    let (remaining, rest, h2) =
      bind-ok
        (upcoming exact (after next_ts (remove_rps next_ts (schedules asset))) next_ts current) _
        h1 in
    let (_, h3) = fits-ok _ 256 (remaining + r.orphaned) h2 in
    let (_, h4) =
      fits_err-ok _ 128 ((remaining + r.orphaned) / fractional) conversion_overflow_error h3 in
    let value : (remaining + r.orphaned) / fractional ≡ amount = ap (λ x. x.1.1) (ok-inj h4) in
    let due =
      outstanding_found pool.last_update_ts schedules pool.rewards asset r found
      ∙ (ap (λ t. outstanding_of pool.last_update_ts schedules r.rps t) type
          ∙ outstanding_running pool.last_update_ts schedules r.rps asset next_ts h) in
    let first = accrued-exact r.rps (next_ts - pool.last_update_ts) current is in
    let later =
      upcoming-exact (after next_ts (remove_rps next_ts (schedules asset))) next_ts current
        remaining rest in
    let all : remaining ≡ outstanding_in pool.last_update_ts schedules pool.rewards asset =
      rw due (later ∙ rw (first, after-remove_rps next_ts (schedules asset)) refl) in
    let removed = ap (λ x. x.0.rewards_to_remove) (ok-inj h4) in
    let kept = ap (λ x. x.0.orphaned_rewards_to_claim) (ok-inj h4) in
    (sym value ∙ ap (λ x. (x + r.orphaned) / fractional) all, sym removed, sym kept)

-- Taking a running reward off a pool that was just updated sends back, in whole units, all that the
-- reward is still to pay, by its current schedule and by all that are stored for later, and its orphaned
-- rewards. It is about the call that does not bypass the schedules to come.
pub deregister_reward-outstanding_in :
    {m : Math}
    → IsDocumented m
    → (next_ts : ℕ) (schedules schedules' : Schedules) (pool pool' : PoolInfo) (asset : AssetInfo)
      (r : RewardInfo) (amount : ℕ)
    → find_ext asset pool.rewards ≡ some r
    → r.reward ≡ ext asset next_ts
    → pool.last_update_ts < next_ts
    → deregister_reward m schedules pool asset false ≡ ok (pool', (schedules', amount))
    → amount
      ≡ (outstanding_in pool.last_update_ts schedules pool.rewards asset + r.orphaned) / fractional
deregister_reward-outstanding_in d =
    rw (eq-exact d) λ next_ts schedules schedules' pool pool' asset r amount found type h run.
      (deregister-exact next_ts schedules schedules' pool pool' asset r amount found type h run).0
