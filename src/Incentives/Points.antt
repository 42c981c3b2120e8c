-- ===== src/Incentives/Points.antt =====
-- The allocation points of the active pools, and their sum in the config
-- (contracts/tokenomics/incentives/src/utils.rs).
use astroport_core.Common.{
  ℕ, Bool, true, false, Option, none, some, List, [], ◌∷◌, ◌∙◌, ◌+◌, ◌-◌, ◌≡◌, refl, ap, arith, not,
  Bool-cases, inl, inr, ltb, not_ltb,
}
use astroport_core.Cosmwasm.{
  ok, sub?, Math, exact, IsDocumented, eq-exact, or_err, fail_if, map_err, unwrap_or,
}
use astroport_core.Cosmwasm.Inversion.{or_err-some}
use astroport_core.Cosmwasm.Outcome.{Gives, bind-Gives, of-Gives}
use astroport_core.Asset.{Text, AssetInfo, Chain, Env, MessageInfo, equal, text_eq}
use astroport_core.Incentives.Types.{
  std, PoolInfo, overflow_error, active_pool_invariant_broken, unauthorized,
}
use astroport_core.Incentives.Storage.{Config, Store, Iteration, determine_asset_info}
use astroport_core.Incentives.Emissions.{
  points_of, last_first, swap_remove, deactivate_pool, set_each, change_pool, disable_active,
  disable_internal_rewards, is_active_pool,
}

unfoldable pub sum_points : List (AssetInfo × ℕ) → ℕ
sum_points [] = 0
sum_points ((lp, n) ∷ rest) = n + sum_points rest

-- The sum in the config is that of the active pools.
abbrev pub IsBalanced : Store → Type 0
IsBalanced store = store.config.total_alloc_points ≡ sum_points store.active_pools

sum_points_swapped :
    (lp : AssetInfo) (n : ℕ) (l : List (AssetInfo × ℕ))
    → sum_points (elim l [ [] ↦ (lp, n) ∷ [] | y ∷ more ↦ y ∷ (lp, n) ∷ more ]) ≡ n + sum_points l
unfolding sum_points
sum_points_swapped lp n [] = refl
sum_points_swapped lp n ((other, k) ∷ l) = omega arith

sum_points-last_first : (l : List (AssetInfo × ℕ)) → sum_points (last_first l) ≡ sum_points l
unfolding sum_points last_first
sum_points-last_first [] = refl
sum_points-last_first ((lp, n) ∷ rest) =
    sum_points_swapped lp n (last_first rest) ∙ ap (λ x. n + x) (sum_points-last_first rest)

sum_points-swap_remove :
    (lp : AssetInfo) (n : ℕ) (l : List (AssetInfo × ℕ))
    → points_of lp l ≡ some n
    → sum_points (swap_remove lp l) + n ≡ sum_points l
unfolding sum_points swap_remove points_of
sum_points-swap_remove lp n [] h = cc
sum_points-swap_remove lp n ((other, k) ∷ rest) h = elim (Bool-cases (equal other lp)) [
  | inl e ↦
      (let is : k ≡ n = ap (λ o. unwrap_or o 0) (rw (e, points_of) at h) in
        rw e (omega (arith, sum_points-last_first rest)))
  | inr e ↦
      (let later = sum_points-swap_remove lp n rest (rw (e, points_of) at h) in rw e (omega arith))
]

pub sub?-some : (a b c : ℕ) → sub? a b ≡ some c → a ≡ c + b
sub?-some a b c h = elim (Bool-cases (ltb a b)) [
  | inl e ↦ let h' : ◌≡◌ {A = Option ℕ} none (some c) = rw e at h in cc
  | inr e ↦ let is : a - b ≡ c = ap (λ o. unwrap_or o 0) (rw e at h) in omega (arith, not_ltb a b e)
]

-- The points that a pool had are taken off both.
taken :
    (config : Config) (lp : AssetInfo) (active_pools : List (AssetInfo × ℕ)) (n total : ℕ)
    → points_of lp active_pools ≡ some n
    → sub? config.total_alloc_points n ≡ some total
    → config.total_alloc_points ≡ sum_points active_pools
    → total ≡ sum_points (swap_remove lp active_pools)
taken config lp active_pools n total found left balanced =
    let sum = sum_points-swap_remove lp n active_pools found in
    let value = sub?-some config.total_alloc_points n total left in omega arith

module _ (order : Iteration) (now : ℕ) (store : Store) (b : IsBalanced store) where
  disable_active-IsBalanced :
      (lp : AssetInfo) → Gives IsBalanced (disable_active exact order now lp store)
  unfolding disable_active
  disable_active-IsBalanced lp =
      bind-Gives IsBalanced (or_err active_pool_invariant_broken (points_of lp store.active_pools))
        _
        λ n found.
          bind-Gives IsBalanced
            (change_pool exact order now lp (λ p. ok (disable_internal_rewards p)) store) _
            λ disabled _.
              bind-Gives IsBalanced (or_err overflow_error (sub? store.config.total_alloc_points n))
                _
                λ total left.
                  bind-Gives IsBalanced
                    (set_each exact order now (record (store.config) { total_alloc_points = total })
                      (swap_remove lp store.active_pools) disabled)
                    _
                    λ updated _.
                      taken store.config lp store.active_pools n total (or_err-some _ _ n found)
                        (or_err-some _ _ total left) b

  when_active :
      (lp : AssetInfo) (t : Bool)
      → Gives IsBalanced
          (elim t [ false ↦ ok store | true ↦ disable_active exact order now lp store ])
  when_active lp false = b
  when_active lp true = disable_active-IsBalanced lp

  when_there :
      (lp : AssetInfo) (pool : Option PoolInfo)
      → Gives IsBalanced (elim pool [
        | none ↦ ok store
        | some p ↦ elim (is_active_pool p) [
          | false ↦ ok store
          | true ↦ disable_active exact order now lp store
        ]
      ])
  when_there lp none = b
  when_there lp (some p) = when_active lp (is_active_pool p)

deactivate_pool-exact :
    (chain : Chain) (order : Iteration) (env : Env) (info : MessageInfo) (lp_token : Text)
    (store store' : Store)
    → IsBalanced store
    → deactivate_pool exact chain order env info lp_token store ≡ ok store'
    → IsBalanced store'
unfolding deactivate_pool
deactivate_pool-exact chain order env info lp_token store store' b run =
    of-Gives IsBalanced _ store'
      (bind-Gives IsBalanced (fail_if (not (text_eq info.sender store.config.factory)) unauthorized)
        _
        λ _ _.
          bind-Gives IsBalanced (map_err std (determine_asset_info chain lp_token)) _
            λ lp _. when_there order env.seconds store b lp (store.pools lp))
      run

-- The sum of the allocation points in the config stays that of the active pools when a pool is
-- deactivated, whatever the call does.
pub deactivate_pool-IsBalanced :
    {m : Math}
    → IsDocumented m
    → (chain : Chain) (order : Iteration) (env : Env) (info : MessageInfo) (lp_token : Text)
      (store store' : Store)
    → IsBalanced store
    → deactivate_pool m chain order env info lp_token store ≡ ok store'
    → IsBalanced store'
deactivate_pool-IsBalanced d = rw (eq-exact d) deactivate_pool-exact
