-- ===== src/Incentives/Payouts.antt =====
-- What all stakers of a pool can claim of a reward, against what the reward had to pay.
use astroport_core.Common.{
  ℕ, false, some, List, [], ◌∷◌, ltb, ◌==◌, if◌then◌else◌, ◌+◌, ◌-◌, ◌*◌, ◌/◌, ◌≤◌, ◌<◌, ◌≡◌, sym,
  inl, inr, arith, Bool-cases, ◌^◌,
}
use astroport_core.Common.Arith.{div-mul-le, mul_mono}
use astroport_core.Cosmwasm.{
  Result, ok, StdError, conversion_overflow, Math, exact, IsDocumented, eq-exact,
  exact-IsDocumented, ◌>>=◌, or_err, fits, err, fractional,
}
use astroport_core.Cosmwasm.Inversion.{bind-ok, fits-ok, sub?-ok, ok-inj}
use native.Mathlib.Nat.{le_trans, mul_comm}
use astroport_core.Asset.{AssetInfo}
use astroport_core.Incentives.Types.{RewardType, ext, RewardInfo, PoolInfo, UserInfo, Schedules}
use astroport_core.Incentives.Accrual.{update_reward}
use astroport_core.Incentives.Conservation.{Ascends, le→not_ltb}
use astroport_core.Incentives.Extension.{mul_sum}
use astroport_core.Incentives.Collection.{outstanding}
use astroport_core.Incentives.Updates.{update_reward-Distributed}
use astroport_core.Incentives.Positions.{user_index, index_gain, calculate_reward}

-- What the positions can claim of a reward together.
unfoldable pub payouts : Math → RewardInfo → List UserInfo → Result StdError ℕ
payouts m r [] = ok 0
payouts m r (u ∷ users) = do
  amount ← calculate_reward m r u
  more ← payouts m r users
  ok (amount + more)

unfoldable pub staked : List UserInfo → ℕ
staked [] = 0
staked (u ∷ users) = u.amount + staked users

-- All positions have seen the same index of a reward.
abbrev pub AreSynced : RewardType → ℕ → List UserInfo → Type 0
AreSynced reward index [] = Unit
AreSynced reward index (u ∷ users) =
    (user_index u.last_rewards_index reward ≡ some index) × AreSynced reward index users

fits_err-value : {E : Type 0} (w a v : ℕ) (e : E) → or_err e (fits w a) ≡ ok v → v ≡ a
fits_err-value w a v e h = elim (Bool-cases (ltb a (2 ^ w))) [
  | inl t ↦ sym (ok-inj (rw t at h))
  | inr t ↦ let h' : err e ≡ ok v = rw t at h in cc
]

calculate_reward-bound :
    (r : RewardInfo) (u : UserInfo) (index gain v : ℕ)
    → user_index u.last_rewards_index r.reward ≡ some index
    → r.index ≡ index + gain
    → calculate_reward exact r u ≡ ok v
    → v * fractional ≤ u.amount * gain
unfolding calculate_reward index_gain
calculate_reward-bound r u index gain v seen is run =
    let old : ltb r.index index ≡ false = le→not_ltb r.index index (omega arith) in
    let (_, h1) = sub?-ok _ r.index index (rw (seen, old, calculate_reward, index_gain) at run) in
    let (_, h2) = fits-ok _ 256 (u.amount * (r.index - index) / fractional) h1 in
    let value = fits_err-value 128 _ v conversion_overflow h2 in
    let grown : r.index - index ≡ gain = omega arith in
    rw (value, grown) (div-mul-le (u.amount * gain) fractional)

payouts-bound :
    (r : RewardInfo) (users : List UserInfo) (index gain total : ℕ)
    → AreSynced r.reward index users
    → r.index ≡ index + gain
    → payouts exact r users ≡ ok total
    → total * fractional ≤ staked users * gain
unfolding payouts staked
payouts-bound r [] index gain total s is run =
    let nothing : 0 ≡ total = ok-inj run in omega (arith, nothing)
payouts-bound r (u ∷ users) index gain total s is run =
    let (v, first, h1) = bind-ok (calculate_reward exact r u) _ run in
    let (more, others, h2) = bind-ok (payouts exact r users) _ h1 in
    let sum : v + more ≡ total = ok-inj h2 in
    let one = calculate_reward-bound r u index gain v s.0 is first in
    let all = payouts-bound r users index gain more s.1 is others in
    rw (sym sum, mul_sum u.amount (staked users) gain) (omega arith)

-- The growth of the index times all that is staked is within what was collected.
growth_bound :
    (total_lp amount collected : ℕ)
    → amount ≤ total_lp
    → amount * (if total_lp == 0 then 0 else collected / total_lp) ≤ collected
growth_bound total_lp amount collected h = elim (Bool-cases (total_lp == 0)) [
  | inl e ↦ rw e (omega arith)
  | inr e ↦ rw e (
      le_trans
        (mul_mono amount total_lp (collected / total_lp) (collected / total_lp) h (omega arith))
        (rw (mul_comm total_lp (collected / total_lp)) (div-mul-le collected total_lp)))
]

-- The stakers of a pool never claim together more than a reward had to pay: after an update, what they
-- can claim, with what the reward is still to pay, is within what it was to pay before. It holds of any
-- list of positions that were synced at the last update and that hold at most all staked tokens.
pub payouts-Distributed :
    {m : Math}
    → IsDocumented m
    → (block start next_ts : ℕ) (schedules : Schedules) (info : AssetInfo) (pool pool' : PoolInfo)
      (r r' : RewardInfo) (users : List UserInfo) (total : ℕ)
    → r.reward ≡ ext info next_ts
    → pool.last_update_ts < next_ts
    → pool.last_update_ts ≤ block
    → Ascends start (schedules info)
    → update_reward m block schedules (block - pool.last_update_ts) pool r ≡ ok (r', pool')
    → AreSynced r'.reward r.index users
    → staked users ≤ pool.total_lp
    → payouts m r' users ≡ ok total
    → total * fractional + outstanding block schedules r'
      ≤ outstanding pool.last_update_ts schedules r
payouts-Distributed d =
    rw (eq-exact d)
      λ block start next_ts schedules info pool pool' r r' users total type h k a run synced within
          paid.
        let (collected, sum, (index, _, _)) =
          update_reward-Distributed exact-IsDocumented block start next_ts schedules info pool pool'
            r r' type h k a run in
        let bound = payouts-bound r' users r.index _ total synced index paid in
        let growth = growth_bound pool.total_lp (staked users) collected within in omega arith
