-- ===== src/Incentives/Chosen.antt =====
-- What holds after the pools with internal rewards were chosen
-- (contracts/tokenomics/incentives/src/execute.rs).
use astroport_core.Common.{
  not-false, ℕ, Bool, true, List, [], ◌∷◌, ◌+◌, ◌<◌, ◌≡◌, arith, not, ◌==◌, pos_of_neb,
}
use astroport_core.Cosmwasm.{ok, Math, exact, IsDocumented, eq-exact, map_err}
use astroport_core.Cosmwasm.Inversion.{fits-ok, ok-inj, fail_if-ok}
use astroport_core.Cosmwasm.Outcome.{Gives, bind-Gives, fail_if-Gives, of-Gives}
use astroport_core.Asset.{Text, AssetInfo, Chain, Env, MessageInfo, PairType}
use astroport_core.Incentives.Types.{std, unauthorized, zero_alloc_point, duplicated_pool_found}
use astroport_core.Incentives.Storage.{Config, Store, Iteration}
use astroport_core.Incentives.Blocklist.{Registry, is_owner_or}
use astroport_core.Incentives.Activation.{
  FactoryQueries, has_text, check_points, checked_pool, checked_pools, disable_old, total_points,
  set_new, setup_pools,
}
use astroport_core.Incentives.Points.{sum_points, IsBalanced}

-- Each of the entries has points.
abbrev pub HasPoints : {A : Type 0} → List (A × ℕ) → Type 0
HasPoints [] = Unit
HasPoints ((a, n) ∷ rest) = (0 < n) × HasPoints rest

check_points-HasPoints :
    (seen : List Text) (pools : List (Text × ℕ)) → check_points seen pools ≡ ok tt → HasPoints pools
unfolding check_points
check_points-HasPoints seen [] h = tt
check_points-HasPoints seen ((lp_token, n) ∷ rest) h =
    let (some_points, h1) = fail_if-ok (n == 0) zero_alloc_point _ h in
    let (_, h2) = fail_if-ok (has_text lp_token seen) duplicated_pool_found _ h1 in
    (pos_of_neb n some_points, check_points-HasPoints (lp_token ∷ seen) rest h2)

module _ (chain : Chain) (registry : Registry) (factory : FactoryQueries) (config : Config)
    (blocked : AssetInfo → Bool) (blacklisted : List PairType) where
  checked_pools-HasPoints :
      (pools : List (Text × ℕ))
      → HasPoints pools
      → Gives HasPoints (checked_pools chain registry factory config blocked blacklisted pools)
  unfolding checked_pools
  checked_pools-HasPoints [] h = tt
  checked_pools-HasPoints ((lp_token, n) ∷ rest) h =
      bind-Gives _ (checked_pool chain registry factory config blocked blacklisted lp_token) _
        λ lp _.
          bind-Gives _ (checked_pools chain registry factory config blocked blacklisted rest) _
            λ more made. (h.0, of-Gives HasPoints _ more (checked_pools-HasPoints rest h.1) made)

total_points-sum_points :
    (start : ℕ) (l : List (AssetInfo × ℕ)) (total : ℕ)
    → total_points exact start l ≡ ok total
    → total ≡ start + sum_points l
unfolding total_points sum_points
total_points-sum_points start [] total h = let is : start ≡ total = ok-inj h in omega (arith, is)
total_points-sum_points start ((lp, n) ∷ l) total h =
    let (_, h1) = fits-ok _ 128 (start + n) h in
    omega (arith, total_points-sum_points (start + n) l total h1)

abbrev Chosen : MessageInfo → Store → Store → Type 0
Chosen info store store' =
    (is_owner_or info.sender store.config.owner store.config.generator_controller ≡ true)
    × IsBalanced store'
    × HasPoints store'.active_pools

setup_pools-Chosen :
    (chain : Chain) (registry : Registry) (factory : FactoryQueries) (order : Iteration) (env : Env)
    (info : MessageInfo) (pools : List (Text × ℕ)) (store : Store)
    → Gives
        (Chosen info store)
        (setup_pools exact chain registry factory order env info pools store)
unfolding setup_pools
setup_pools-Chosen chain registry factory order env info pools store =
    let config = store.config in
    fail_if-Gives _ (not (is_owner_or info.sender config.owner config.generator_controller))
      unauthorized _
      λ allowed. bind-Gives _ (check_points [] pools) _ λ checked points.
        bind-Gives _ (map_err std (factory.blacklisted_pair_types config.factory)) _
          λ blacklisted _.
            bind-Gives _
              (checked_pools chain registry factory config store.blocked blacklisted pools) _
              λ setup made.
                bind-Gives _ (disable_old exact order env.seconds store.active_pools store) _
                  λ disabled _. bind-Gives _ (total_points exact 0 setup) _ λ total sum.
                    bind-Gives _
                      (set_new exact order env.seconds
                        (record config { total_alloc_points = total }) setup disabled)
                      _
                      λ updated _.
                        let have =
                          checked_pools-HasPoints chain registry factory config store.blocked
                            blacklisted pools (check_points-HasPoints [] pools points) in
                        (
                          not-false _ allowed,
                          (omega (arith, total_points-sum_points 0 setup total sum)),
                          of-Gives HasPoints _ setup have made,
                        )

-- When a call of setup_pools succeeds, the caller is the owner or the generator controller, the sum of
-- the allocation points in the config is that of the active pools, whatever it was before, and each
-- active pool has points.
pub setup_pools-IsBalanced :
    {m : Math}
    → IsDocumented m
    → (chain : Chain) (registry : Registry) (factory : FactoryQueries) (order : Iteration)
      (env : Env) (info : MessageInfo) (pools : List (Text × ℕ)) (store store' : Store)
    → setup_pools m chain registry factory order env info pools store ≡ ok store'
    → (is_owner_or info.sender store.config.owner store.config.generator_controller ≡ true)
      × IsBalanced store'
      × HasPoints store'.active_pools
setup_pools-IsBalanced d =
    rw (eq-exact d) λ chain registry factory order env info pools store store' run.
      of-Gives (Chosen info store) _ store'
        (setup_pools-Chosen chain registry factory order env info pools store) run
