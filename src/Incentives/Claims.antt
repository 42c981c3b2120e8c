-- ===== src/Incentives/Claims.antt =====
-- A position that was just synced has nothing to claim.
use astroport_core.Common.{
  ℕ, Bool, true, false, some, List, [], ◌∷◌, ◌-◌, ◌*◌, ◌/◌, ◌<◌, ◌≡◌, refl, ap, ◌∙◌, arith, map,
  ◌^◌, lt→ltb,
}
use astroport_core.Cosmwasm.{
  ok, conversion_overflow, Math, exact, IsDocumented, eq-exact, ◌>>=◌, fits, fractional, or_panic,
  or_err, sub?_of_le,
}
use astroport_core.Cosmwasm.Inversion.{bind-ok, ok-inj}
use astroport_core.Asset.{Asset}
use astroport_core.Asset.Equality.{equal_refl}
use astroport_core.Incentives.Types.{
  RewardType, int, ext, is_external, asset_info, matches, RewardInfo, PoolInfo, UserInfo, Op,
}
use astroport_core.Incentives.Conservation.{le→not_ltb}
use astroport_core.Incentives.Positions.{
  user_index, index_gain, calculate_reward, calculate_rewards, apply_op, update_and_sync_position,
}

-- No two rewards of the list are internal, and no two are external of one asset.
abbrev Differs : RewardType → List RewardInfo → Type 0
Differs t [] = Unit
Differs t (r ∷ rest) = (matches t r.reward ≡ false) × Differs t rest

abbrev pub AreDistinct : List RewardInfo → Type 0
AreDistinct [] = Unit
AreDistinct (r ∷ rest) = Differs r.reward rest × AreDistinct rest

-- Each reward has the index that the list holds for it.
abbrev Seen : List (RewardType × ℕ) → List RewardInfo → Type 0
Seen indexes [] = Unit
Seen indexes (r ∷ rest) = (user_index indexes r.reward ≡ some r.index) × Seen indexes rest

abbrev indexes_of : List RewardInfo → List (RewardType × ℕ)
indexes_of = map λ r. (r.reward, r.index)

matches_refl : (t : RewardType) → matches t t ≡ true
unfolding matches
matches_refl (int i) = refl
matches_refl (ext i t) = equal_refl i

Seen-later :
    (t : RewardType) (i : ℕ) (indexes : List (RewardType × ℕ)) (rewards : List RewardInfo)
    → Differs t rewards
    → Seen indexes rewards
    → Seen ((t, i) ∷ indexes) rewards
unfolding user_index
Seen-later t i indexes [] d s = tt
Seen-later t i indexes (r ∷ rest) d s = (rw d.0 s.0, Seen-later t i indexes rest d.1 s.1)

all-Seen : (rewards : List RewardInfo) → AreDistinct rewards → Seen (indexes_of rewards) rewards
unfolding user_index
all-Seen [] d = tt
all-Seen (r ∷ rest) d = (
  rw (matches_refl r.reward) refl,
  Seen-later r.reward r.index (indexes_of rest) rest d.0 (all-Seen rest d.1),
)

-- The reward with the amount zero.
abbrev pub nothing_of : RewardInfo → Bool × Asset
nothing_of r = (is_external r.reward, record { info = asset_info r.reward; amount = 0 })

zero_fits : (a w : ℕ) → 0 < 2 ^ w → fits w (a * 0 / fractional) ≡ some 0
zero_fits a w h =
    let nothing : a * 0 / fractional ≡ 0 = omega arith in rw nothing (rw (lt→ltb 0 (2 ^ w) h) refl)

index_gain_seen : (r : RewardInfo) → index_gain exact r (some r.index) ≡ ok 0
unfolding index_gain
index_gain_seen r =
    let none_left : r.index - r.index ≡ 0 = omega arith in
    rw (index_gain, le→not_ltb r.index r.index (omega arith))
      (ap or_panic (sub?_of_le r.index r.index (omega arith) ∙ ap some none_left))

calculate_reward_seen :
    (r : RewardInfo) (u : UserInfo)
    → user_index u.last_rewards_index r.reward ≡ some r.index
    → calculate_reward exact r u ≡ ok 0
unfolding calculate_reward
calculate_reward_seen r u seen =
    rw (seen, index_gain_seen r)
      (ap (λ o. or_panic o >>= λ reward. or_err conversion_overflow (fits 128 reward))
        (zero_fits u.amount 256 (omega arith)))

calculate_rewards-Seen :
    (rewards : List RewardInfo) (u : UserInfo)
    → Seen u.last_rewards_index rewards
    → calculate_rewards exact rewards u ≡ ok (map nothing_of rewards)
unfolding calculate_rewards
calculate_rewards-Seen [] u s = refl
calculate_rewards-Seen (r ∷ rest) u s =
    rw (calculate_reward_seen r u s.0, calculate_rewards-Seen rest u s.1) refl

synced-exact :
    (operation : Op) (user user' : UserInfo) (pool pool' : PoolInfo)
    → AreDistinct pool.rewards
    → update_and_sync_position exact operation user pool ≡ ok (user', pool')
    → (calculate_rewards exact pool'.rewards user' ≡ ok (map nothing_of pool.rewards))
      × (user'.last_claim_time ≡ pool.last_update_ts)
unfolding update_and_sync_position
synced-exact operation user user' pool pool' distinct run =
    let (amount, _, h1) = bind-ok (apply_op exact operation user.amount) _ run in
    let (total, _, h2) = bind-ok (apply_op exact operation pool.total_lp) _ h1 in
    let same = ok-inj h2 in
    let user_same = ap (λ x. x.0) same in
    let rewards = ap (λ x. x.1.rewards) same in
    rw⁻¹ (user_same, rewards)
      (calculate_rewards-Seen pool.rewards _ (all-Seen pool.rewards distinct), refl)

-- Nothing is paid twice: right after a position is synced, by a deposit, a withdrawal or a claim, each
-- reward of the pool gives the position zero, provided that no two rewards of the pool are of one kind
-- and one asset.
pub update_and_sync_position-calculate_rewards :
    {m : Math}
    → IsDocumented m
    → (operation : Op) (user user' : UserInfo) (pool pool' : PoolInfo) → AreDistinct pool.rewards
    → update_and_sync_position m operation user pool ≡ ok (user', pool')
    → (calculate_rewards m pool'.rewards user' ≡ ok (map nothing_of pool.rewards))
      × (user'.last_claim_time ≡ pool.last_update_ts)
update_and_sync_position-calculate_rewards d = rw (eq-exact d) synced-exact
