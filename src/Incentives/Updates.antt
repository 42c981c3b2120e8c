-- ===== src/Incentives/Updates.antt =====
-- One reward over one update of its pool: what it had to pay is collected or stays to be paid, and what
-- is collected goes to the stakers or to the orphaned rewards.
use astroport_core.Common.{
  ℕ, true, false, List, [], ◌∷◌, ◌==◌, if◌then◌else◌, ◌+◌, ◌-◌, ◌*◌, ◌/◌, ◌≤◌, ◌<◌, ◌≡◌, refl, sym,
  ap, ◌∙◌, inl, inr, arith, Bool-cases, ==_iff, pos_of_neb,
}
use astroport_core.Cosmwasm.{Result, ok, StdError, Math, exact, IsDocumented, eq-exact, fractional}
use astroport_core.Cosmwasm.Inversion.{bind-ok, fits-ok, ratio?-ok, ok-inj}
use astroport_core.Asset.{AssetInfo, equal}
use astroport_core.Asset.Equality.{equal_refl}
use astroport_core.Incentives.Types.{ext, asset_info, RewardInfo, PoolInfo, Schedules}
use astroport_core.Incentives.Accrual.{collect, distribute, update_reward, add_orphaned}
use astroport_core.Incentives.Conservation.{Ascends, div_one}
use native.Mathlib.Nat.{mul-div-mul_right}
use astroport_core.Incentives.Collection.{outstanding, outstanding_of, collect-Kept}

-- The orphaned rewards of an asset that wait to be saved.
unfoldable pub held : AssetInfo → List (AssetInfo × ℕ) → ℕ
held info [] = 0
held info ((other, amount) ∷ rest) =
    let more = held info rest in if equal other info then amount + more else more

add_orphaned-held :
    (info : AssetInfo) (amount : ℕ) (claims after : List (AssetInfo × ℕ))
    → ◌≡◌ {A = Result StdError (List (AssetInfo × ℕ))}
        (add_orphaned exact info amount claims)
        (ok after)
    → held info after ≡ held info claims + amount
unfolding add_orphaned held
add_orphaned-held info amount [] after h = rw⁻¹ (ok-inj h) (rw (equal_refl info) (omega arith))
add_orphaned-held info amount ((other, n) ∷ rest) after h = elim (Bool-cases (equal other info)) [
  | inl e ↦
      let (_, h1) = fits-ok _ 256 (n + amount) (rw (e, add_orphaned) at h) in
      rw⁻¹ (ok-inj h1) (rw e (omega arith))
  | inr e ↦
      let (more, is, h1) =
        bind-ok (add_orphaned exact info amount rest) _ (rw (e, add_orphaned) at h) in
      rw⁻¹ (ok-inj h1) (rw e (add_orphaned-held info amount rest more is))
]

scaled-div : (a b d : ℕ) → 0 < d → 0 < b → a * d / (b * d / 1) ≡ a / b
scaled-div a b d h k = rw (div_one (b * d)) (mul-div-mul_right a b h)

-- Where the collected rewards go.
abbrev pub Distributed :
    ℕ → ℕ → RewardInfo → RewardInfo → List (AssetInfo × ℕ) → List (AssetInfo × ℕ) → Type 0
Distributed total_lp collected r r' claims claims' =
    (r'.index ≡ r.index + (if total_lp == 0 then 0 else collected / total_lp))
    × (r'.orphaned ≡ (if total_lp == 0 then r.orphaned + collected else 0))
    × (held (asset_info r.reward) claims'
        ≡ held (asset_info r.reward) claims + (if total_lp == 0 then 0 else r.orphaned))

-- The orphaned rewards are set aside, when there are any.
claim_orphaned : RewardInfo → List (AssetInfo × ℕ) → Result StdError (List (AssetInfo × ℕ))
claim_orphaned r claims = elim (r.orphaned == 0) [
  | true ↦ ok claims
  | false ↦ add_orphaned exact (asset_info r.reward) r.orphaned claims
]

claim_orphaned-held :
    (r : RewardInfo) (claims after : List (AssetInfo × ℕ))
    → claim_orphaned r claims ≡ ok after
    → held (asset_info r.reward) after ≡ held (asset_info r.reward) claims + r.orphaned
unfolding claim_orphaned
claim_orphaned-held r claims after h = elim (Bool-cases (r.orphaned == 0)) [
  | inl e ↦
      let same = ok-inj (rw (e, claim_orphaned) at h) in rw⁻¹ same (omega (arith, (==_iff _ _).0 e))
  | inr e ↦
      add_orphaned-held (asset_info r.reward) r.orphaned claims after (rw (e, claim_orphaned) at h)
]

distribute-Distributed :
    (total_lp collected : ℕ) (r r' : RewardInfo) (claims claims' : List (AssetInfo × ℕ))
    → distribute exact total_lp collected r claims ≡ ok (r', claims')
    → (r'.reward ≡ r.reward) × (r'.rps ≡ r.rps) × Distributed total_lp collected r r' claims claims'
unfolding distribute claim_orphaned
distribute-Distributed total_lp collected r r' claims claims' h =
    elim (Bool-cases (total_lp == 0)) [
      | inl e ↦
          let (_, h1) = fits-ok _ 256 (r.orphaned + collected) (rw (e, distribute) at h) in
          let same = ok-inj h1 in
          rw e (
            ap (λ x. x.0.reward) (sym same),
            ap (λ x. x.0.rps) (sym same),
            (
              ap (λ x. x.0.index) (sym same) ∙ omega arith,
              ap (λ x. x.0.orphaned) (sym same),
              ap (λ x. held (asset_info r.reward) x.1) (sym same) ∙ omega arith,
            ),
          )
      | inr e ↦
          let (after, claimed, h1) =
            bind-ok (claim_orphaned r claims) _ (rw (e, distribute) at h) in
          let (_, _, h2) = ratio?-ok _ 256 total_lp fractional 1 h1 in
          let (_, _, h3) = ratio?-ok _ 256 collected fractional (total_lp * fractional / 1) h2 in
          let (_, h4) =
            fits-ok _ 256 (r.index + collected * fractional / (total_lp * fractional / 1)) h3 in
          let same = ok-inj h4 in
          let share = scaled-div collected total_lp fractional (omega arith) (pos_of_neb _ e) in
          rw e (
            ap (λ x. x.0.reward) (sym same),
            ap (λ x. x.0.rps) (sym same),
            (
              ap (λ x. x.0.index) (sym same) ∙ ap (λ x. r.index + x) share,
              ap (λ x. x.0.orphaned) (sym same),
              ap (λ x. held (asset_info r.reward) x.1) (sym same)
                  ∙ claim_orphaned-held r claims after claimed,
            ),
          )
    ]

Distributed-Kept :
    (total_lp collected : ℕ) (r u x : RewardInfo) (claims claims' : List (AssetInfo × ℕ))
    → u.index ≡ r.index
    → u.orphaned ≡ r.orphaned
    → asset_info u.reward ≡ asset_info r.reward
    → Distributed total_lp collected u x claims claims'
    → Distributed total_lp collected r x claims claims'
Distributed-Kept total_lp collected r u x claims claims' index orphaned asset w =
    rw⁻¹ (index, orphaned, asset) w

module _ (block start next_ts : ℕ) (schedules : Schedules) (info : AssetInfo) where
  update_reward-exact :
      (pool pool' : PoolInfo) (r r' : RewardInfo)
      → r.reward ≡ ext info next_ts
      → pool.last_update_ts < next_ts
      → pool.last_update_ts ≤ block
      → Ascends start (schedules info)
      → update_reward exact block schedules (block - pool.last_update_ts) pool r ≡ ok (r', pool')
      → (collected : ℕ) × (collected + outstanding block schedules r'
          ≡ outstanding pool.last_update_ts schedules r)
        × Distributed pool.total_lp collected r r' pool.orphaned_rewards_to_claim
            pool'.orphaned_rewards_to_claim
  unfolding update_reward outstanding_of
  update_reward-exact pool pool' r r' type h k a run =
      let (c, collects, h1) =
        bind-ok (collect exact block pool.last_update_ts schedules (block - pool.last_update_ts) r)
          _ run in
      let (index, orphaned, asset, sum) =
        collect-Kept block pool.last_update_ts schedules info r next_ts type h start c a k
          collects in
      let ((x, claims), distributes, h2) =
        bind-ok
          (distribute exact pool.total_lp c.collected c.updated pool.orphaned_rewards_to_claim) _
          h1 in
      let (reward', rps', where_to) =
        distribute-Distributed pool.total_lp c.collected c.updated x pool.orphaned_rewards_to_claim
          claims distributes in
      let done = ok-inj h2 in
      let same : x ≡ r' = ap (λ p. p.0) done in
      let waits : claims ≡ pool'.orphaned_rewards_to_claim =
        ap (λ p. p.1.orphaned_rewards_to_claim) done in
      let still : outstanding block schedules x ≡ outstanding block schedules c.updated =
        rw (reward', rps') refl in
      rw⁻¹ (same, waits)
        (
          c.collected,
          ap (λ n. c.collected + n) still ∙ sum,
          Distributed-Kept pool.total_lp c.collected r c.updated x pool.orphaned_rewards_to_claim
              claims index orphaned asset where_to,
        )

-- A reward with schedules, over an update of its pool: what is collected, together with what the reward
-- is still to pay afterwards, is exactly what it was to pay before, however many schedules passed in
-- between. What is collected raises the reward per LP token by the quotient, and what was orphaned is
-- set aside; while nothing is staked, all of it is orphaned.
pub update_reward-Distributed :
    {m : Math}
    → IsDocumented m
    → (block start next_ts : ℕ) (schedules : Schedules) (info : AssetInfo) (pool pool' : PoolInfo)
      (r r' : RewardInfo)
    → r.reward ≡ ext info next_ts
    → pool.last_update_ts < next_ts
    → pool.last_update_ts ≤ block
    → Ascends start (schedules info)
    → update_reward m block schedules (block - pool.last_update_ts) pool r ≡ ok (r', pool')
    → (collected : ℕ) × (collected + outstanding block schedules r'
        ≡ outstanding pool.last_update_ts schedules r)
      × Distributed pool.total_lp collected r r' pool.orphaned_rewards_to_claim
          pool'.orphaned_rewards_to_claim
update_reward-Distributed d = rw (eq-exact d) update_reward-exact
