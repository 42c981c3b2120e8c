-- ===== src/Incentives/Emissions.antt =====
-- The internal rewards of the active pools (contracts/tokenomics/incentives/src/state.rs, utils.rs,
-- execute.rs).
use astroport_core.Common.{
  ℕ, Bool, true, false, Option, none, some, List, [], ◌∷◌, ◌++◌, ◌&&◌, ◌||◌, not, ◌==◌,
  if◌then◌else◌,
}
use astroport_core.Cosmwasm.{
  Result, ok, not_found, Math, ◌>>=◌, ◌>>◌, or_err, or_panic, fail_if, map_err,
}
use astroport_core.Asset.{Text, AssetInfo, equal, text_eq, Chain, MessageInfo, Env}
use astroport_core.Incentives.Types.{
  ContractError, std, unauthorized, active_pool_invariant_broken, overflow_error, int, is_external,
  RewardInfo, PoolInfo,
}
use astroport_core.Incentives.Accrual.{update_rewards}
use astroport_core.Incentives.Storage.{Config, Store, Iteration, save, determine_asset_info}

-- The first internal reward with another rate, if there is one.
unfoldable pub with_rate : ℕ → List RewardInfo → List RewardInfo
unfolding is_external
with_rate rps [] = []
with_rate rps (r ∷ rest) =
    let later = with_rate rps rest in
    if is_external r.reward then r ∷ later else record r { rps = rps } ∷ rest

unfoldable pub has_internal : List RewardInfo → Bool
unfolding is_external
has_internal [] = false
has_internal (r ∷ rest) = let more = has_internal rest in not (is_external r.reward) || more

unfoldable pub is_active : List RewardInfo → Bool
unfolding is_external
is_active [] = false
is_active (r ∷ rest) =
    let more = is_active rest in (not (is_external r.reward) && not (r.rps == 0)) || more

-- `is_active_pool`
unfoldable pub is_active_pool : PoolInfo → Bool
unfolding is_active
is_active_pool pool = is_active pool.rewards

unfoldable pub disable_internal_rewards : PoolInfo → PoolInfo
unfolding with_rate
disable_internal_rewards pool = record pool { rewards = with_rate 0 pool.rewards }

unfoldable pub set_internal_rewards :
    {E : Type 0} → Math → Config → ℕ → PoolInfo → Result E PoolInfo
unfolding with_rate has_internal
set_internal_rewards m config alloc_points pool = do
  numerator ← or_panic (m.checked_mul 128 config.reward_per_second alloc_points)
  rps ← or_panic (m.from_ratio 256 numerator config.total_alloc_points)
  ok (record pool {
    rewards =
        if has_internal pool.rewards
        then with_rate rps pool.rewards
        else pool.rewards
          ++ record { reward = int config.reward_token; rps = rps; index = 0; orphaned = 0 } ∷ [];
  })

module _ (m : Math) (order : Iteration) (now : ℕ) where
  -- One pool: loaded, updated, its internal rewards changed, and saved.
  unfoldable pub change_pool :
      AssetInfo → (PoolInfo → Result ContractError PoolInfo) → Store → Result ContractError Store
  unfolding save
  change_pool lp change store = do
    pool ← or_err (std not_found) (store.pools lp)
    updated ← map_err std (update_rewards m now (store.schedules lp) pool)
    changed ← change updated
    map_err std (save m order lp changed store)

  unfoldable pub set_each : Config → List (AssetInfo × ℕ) → Store → Result ContractError Store
  unfolding change_pool set_internal_rewards
  set_each config [] store = ok store
  set_each config ((lp, alloc_points) ∷ rest) store = do
    store' ← change_pool lp (set_internal_rewards m config alloc_points) store
    set_each config rest store'

  -- The pools one after another, with the sum of their points so far.
  unfoldable pub disable_each : List (AssetInfo × ℕ) → ℕ → Store → Result ContractError (Store × ℕ)
  unfolding change_pool disable_internal_rewards
  disable_each [] reduced store = ok (store, reduced)
  disable_each ((lp, alloc_points) ∷ rest) reduced store = do
    store' ← change_pool lp (λ pool. ok (disable_internal_rewards pool)) store
    reduced' ← or_panic (m.checked_add 128 reduced alloc_points)
    disable_each rest reduced' store'

-- `find_position` and `swap_remove`: the points of a pool, and the others with the last one in its
-- place.
unfoldable pub points_of : AssetInfo → List (AssetInfo × ℕ) → Option ℕ
points_of lp [] = none
points_of lp ((other, n) ∷ rest) =
    let later = points_of lp rest in if equal other lp then some n else later

unfoldable pub last_first : List (AssetInfo × ℕ) → List (AssetInfo × ℕ)
last_first [] = []
last_first (x ∷ rest) = elim (last_first rest) [ [] ↦ x ∷ [] | y ∷ more ↦ y ∷ x ∷ more ]

unfoldable pub swap_remove : AssetInfo → List (AssetInfo × ℕ) → List (AssetInfo × ℕ)
unfolding last_first
swap_remove lp [] = []
swap_remove lp ((other, n) ∷ rest) =
    let later = swap_remove lp rest in
    if equal other lp then last_first rest else (other, n) ∷ later

-- An active pool leaves the active pools, and its points the sum of the config; the others get their
-- new rates.
unfoldable pub disable_active :
    Math → Iteration → ℕ → AssetInfo → Store → Result ContractError Store
unfolding points_of swap_remove change_pool disable_internal_rewards set_each
disable_active m order now lp store = do
  let config = store.config
  alloc_points ← or_err active_pool_invariant_broken (points_of lp store.active_pools)
  let active_pools = swap_remove lp store.active_pools
  disabled ← change_pool m order now lp (λ p. ok (disable_internal_rewards p)) store
  total ← or_err overflow_error (m.checked_sub config.total_alloc_points alloc_points)
  let config' = record config { total_alloc_points = total }
  updated ← set_each m order now config' active_pools disabled
  ok (record updated { config = config'; active_pools = active_pools })

unfoldable pub deactivate_pool :
    Math → Chain → Iteration → Env → MessageInfo → Text → Store → Result ContractError Store
unfolding is_active_pool disable_active
deactivate_pool m chain order env info lp_token store = do
  fail_if (not (text_eq info.sender store.config.factory)) unauthorized
  lp ← map_err std (determine_asset_info chain lp_token)
  elim (store.pools lp) [
    | none ↦ ok store
    | some pool ↦ elim (is_active_pool pool) [
      | false ↦ ok store
      | true ↦ disable_active m order env.seconds lp store
    ]
  ]
