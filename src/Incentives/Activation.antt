-- ===== src/Incentives/Activation.antt =====
-- Which pools may receive internal rewards, and how they are chosen
-- (contracts/tokenomics/incentives/src/execute.rs and utils.rs).
use Prim.Native.String.{String}
use astroport_core.Common.{
  ℕ, Bool, true, false, Option, none, some, List, [], ◌∷◌, ◌||◌, ◌++◌, not, ◌==◌, if◌then◌else◌,
}
use astroport_core.Cosmwasm.{
  Result, ok, err, panic, StdError, generic_err, not_found, Math, ◌>>=◌, ◌>>◌, or_err, or_panic,
  fail_if, map_err,
}
use astroport_core.Asset.{
  Addr, Text, AssetInfo, token, native_token, contains, text_eq, Chain, MessageInfo, Env, PairInfo,
  PairType, xyk, stable, custom,
}
use astroport_core.Incentives.Types.{
  ContractError, std, unauthorized, zero_alloc_point, duplicated_pool_found, blocked_token,
  blocked_pair_type, overflow_error, PoolInfo,
}
use astroport_core.Incentives.Accrual.{update_rewards}
use astroport_core.Incentives.Storage.{Config, Store, Iteration, save, determine_asset_info}
use astroport_core.Incentives.Emissions.{
  change_pool, disable_internal_rewards, set_internal_rewards, set_each,
}
use astroport_core.Incentives.Blocklist.{
  Registry, get_pair_from_denom, query_pair_info, is_owner_or,
}

-- The queries of the factory: the pair of assets, and the pair types that are blacklisted.
pub record FactoryQueries : Type 0 where
  pub pair_of : Addr → List AssetInfo → Result StdError PairInfo
  pub blacklisted_pair_types : Addr → Result StdError (List PairType)

-- The derived `==`
unfoldable pub same_pair_type : PairType → PairType → Bool
same_pair_type xyk xyk = true
same_pair_type stable stable = true
same_pair_type (custom a) (custom b) = text_eq a b
same_pair_type _ _ = false

unfoldable pub is_blacklisted : PairType → List PairType → Bool
unfolding same_pair_type
is_blacklisted t [] = false
is_blacklisted t (other ∷ rest) = same_pair_type other t || is_blacklisted t rest

-- The answer of the factory. The error names the first two assets of the pair.
unfoldable pub or_not_registered :
    String → List AssetInfo → Result StdError PairInfo → Result StdError PairInfo
or_not_registered text infos (ok p) = ok p
or_not_registered text infos panic = panic
or_not_registered text [] (err e) = panic
or_not_registered text (a ∷ []) (err e) = panic
or_not_registered text (a ∷ b ∷ more) (err e) = err (generic_err text)

unfoldable pub any_blocked : (AssetInfo → Bool) → List AssetInfo → Bool
any_blocked blocked [] = false
any_blocked blocked (a ∷ rest) = blocked a || any_blocked blocked rest

module _ (chain : Chain) (registry : Registry) (factory : FactoryQueries) (config : Config) where
  unfoldable pub is_valid_pool : AssetInfo → Result StdError Unit
  unfolding get_pair_from_denom query_pair_info or_not_registered
  is_valid_pool (native_token denom) = do
    lp_minter ← get_pair_from_denom chain denom
    pair_info ←
        map_err (λ e. generic_err "LP token is not minted by a registered Astroport pair")
          (registry.pair lp_minter)
    fail_if (not (text_eq pair_info.liquidity_token denom))
        (generic_err "LP token doesn't match LP token registered in pair")
    registered ←
        or_not_registered "The pair is not registered in factory" pair_info.asset_infos
          (factory.pair_of config.factory pair_info.asset_infos)
    fail_if (not (text_eq registered.contract_addr lp_minter))
        (generic_err "LP token claims a pair but factory registers another for this asset pair")
    fail_if (not (text_eq registered.liquidity_token denom))
        (generic_err "LP token doesn't match LP token registered in factory")
  is_valid_pool (token contract_addr) = do
    pair_info ← query_pair_info chain registry (token contract_addr)
    registered ←
        or_not_registered "The pair is not registered" pair_info.asset_infos
          (factory.pair_of config.factory pair_info.asset_infos)
    fail_if (not (text_eq registered.liquidity_token contract_addr))
        (generic_err "LP token doesn't match LP token registered in factory")

  -- One pool of the message.
  unfoldable pub checked_pool :
      (AssetInfo → Bool) → List PairType → Text → Result ContractError AssetInfo
  unfolding is_valid_pool query_pair_info is_blacklisted any_blocked
  checked_pool blocked blacklisted lp_token = do
    maybe_lp ← map_err std (determine_asset_info chain lp_token)
    pair_info ← map_err std (query_pair_info chain registry maybe_lp)
    valid ← map_err std (is_valid_pool maybe_lp)
    fail_if (any_blocked blocked pair_info.asset_infos) blocked_token
    fail_if (is_blacklisted pair_info.pair_type blacklisted) blocked_pair_type
    ok maybe_lp

  unfoldable pub checked_pools :
      (AssetInfo → Bool)
      → List PairType
      → List (Text × ℕ)
      → Result ContractError (List (AssetInfo × ℕ))
  unfolding checked_pool
  checked_pools blocked blacklisted [] = ok []
  checked_pools blocked blacklisted ((lp_token, alloc_point) ∷ rest) = do
    maybe_lp ← checked_pool blocked blacklisted lp_token
    more ← checked_pools blocked blacklisted rest
    ok ((maybe_lp, alloc_point) ∷ more)

unfoldable pub has_text : Text → List Text → Bool
has_text t [] = false
has_text t (other ∷ rest) = text_eq other t || has_text t rest

-- The first loop, with the pools that it has seen.
unfoldable pub check_points : List Text → List (Text × ℕ) → Result ContractError Unit
unfolding has_text
check_points seen [] = ok tt
check_points seen ((lp_token, alloc_points) ∷ rest) = do
  fail_if (alloc_points == 0) zero_alloc_point
  fail_if (has_text lp_token seen) duplicated_pool_found
  check_points (lp_token ∷ seen) rest

-- The sum of the points of the pools.
unfoldable pub total_points : Math → ℕ → List (AssetInfo × ℕ) → Result ContractError ℕ
total_points m sum [] = ok sum
total_points m sum ((lp, alloc_points) ∷ rest) = do
  sum' ← or_panic (m.checked_add 128 sum alloc_points)
  total_points m sum' rest

abbrev pub new_pool : PoolInfo
new_pool = record {
  total_lp = 0;
  rewards = [];
  last_update_ts = 0;
  rewards_to_remove = [];
  orphaned_rewards_to_claim = [];
}

unfoldable pub or_new : Option PoolInfo → PoolInfo
or_new none = new_pool
or_new (some pool) = pool

module _ (m : Math) (order : Iteration) (now : ℕ) where
  unfoldable pub disable_old : List (AssetInfo × ℕ) → Store → Result ContractError Store
  unfolding change_pool disable_internal_rewards
  disable_old [] store = ok store
  disable_old ((lp, alloc_points) ∷ rest) store = do
    store' ← change_pool m order now lp (λ pool. ok (disable_internal_rewards pool)) store
    disable_old rest store'

  unfoldable pub set_new : Config → List (AssetInfo × ℕ) → Store → Result ContractError Store
  unfolding set_internal_rewards save or_new
  set_new config [] store = ok store
  set_new config ((lp, alloc_points) ∷ rest) store = do
    updated ← map_err std (update_rewards m now (store.schedules lp) (or_new (store.pools lp)))
    changed ← set_internal_rewards m config alloc_points updated
    store' ← map_err std (save m order lp changed store)
    set_new config rest store'

module _ (m : Math) (chain : Chain) (registry : Registry) (factory : FactoryQueries)
    (order : Iteration) where
  unfoldable pub setup_pools :
      Env → MessageInfo → List (Text × ℕ) → Store → Result ContractError Store
  unfolding check_points checked_pools disable_old total_points set_new
  setup_pools env info pools store = do
    let config = store.config
    fail_if (not (is_owner_or info.sender config.owner config.generator_controller)) unauthorized
    checked ← check_points [] pools
    blacklisted ← map_err std (factory.blacklisted_pair_types config.factory)
    setup ← checked_pools chain registry factory config store.blocked blacklisted pools
    disabled ← disable_old m order env.seconds store.active_pools store
    total ← total_points m 0 setup
    let config' = record config { total_alloc_points = total }
    updated ← set_new m order env.seconds config' setup disabled
    ok (record updated { config = config'; active_pools = setup })

-- The loop over the active pools, with the pools that are to be removed and the points that are left.
module _ (m : Math) (chain : Chain) (registry : Registry) (order : Iteration) (now : ℕ)
    (blacklisted : List PairType) where
  unfoldable pub remove_blacklisted :
      List (AssetInfo × ℕ)
      → List AssetInfo
      → ℕ
      → Store
      → Result ContractError (List AssetInfo × (ℕ × Store))
  unfolding is_blacklisted query_pair_info change_pool disable_internal_rewards
  remove_blacklisted [] to_remove total store = ok (to_remove, (total, store))
  remove_blacklisted ((lp, alloc_points) ∷ rest) to_remove total store = do
    pool ← or_err (std not_found) (store.pools lp)
    pair_info ← map_err std (query_pair_info chain registry lp)
    elim (is_blacklisted pair_info.pair_type blacklisted) [
      | false ↦ remove_blacklisted rest to_remove total store
      | true ↦ do
        store' ← change_pool m order now lp (λ p. ok (disable_internal_rewards p)) store
        total' ← or_err overflow_error (m.checked_sub total alloc_points)
        remove_blacklisted rest (to_remove ++ lp ∷ []) total' store'
    ]

unfoldable pub retained : List AssetInfo → List (AssetInfo × ℕ) → List (AssetInfo × ℕ)
retained to_remove [] = []
retained to_remove ((lp, n) ∷ rest) =
    let more = retained to_remove rest in if contains to_remove lp then more else (lp, n) ∷ more

unfoldable pub deactivate_blocked_pools :
    Math → Chain → Registry → FactoryQueries → Iteration → Env → Store → Result ContractError Store
unfolding remove_blacklisted retained set_each
deactivate_blocked_pools m chain registry factory order env store = do
  let config = store.config
  blacklisted ← map_err std (factory.blacklisted_pair_types config.factory)
  (to_remove, (total, disabled)) ←
      remove_blacklisted m chain registry order env.seconds blacklisted store.active_pools []
        config.total_alloc_points store
  elim to_remove [
    | [] ↦ ok disabled
    | lp ∷ more ↦ do
      let config' = record config { total_alloc_points = total }
      let left = retained (lp ∷ more) store.active_pools
      updated ← set_each m order env.seconds config' left disabled
      ok (record updated { config = config'; active_pools = left })
  ]
