-- ===== src/Incentives/Handled.antt =====
-- Each call but the stakers' leaves the stakes alone.
use astroport_core.Common.{ℕ, Bool, true, false, Option, none, some, List, [], ◌∷◌, not}
use astroport_core.Cosmwasm.{ok, Math, ◌>>=◌, map_err}
use astroport_core.Cosmwasm.Outcome.{Gives, bind-Gives, of-Gives, fail_if-Gives}
use astroport_core.Asset.{Text, AssetInfo, text_eq, Chain, Env, MessageInfo}
use astroport_core.Incentives.Types.{std, unauthorized, PoolInfo}
use astroport_core.Incentives.Storage.{Store, Iteration, determine_asset_info}
use astroport_core.Incentives.Emissions.{set_each, is_active_pool, disable_active, deactivate_pool}
use astroport_core.Incentives.Blocklist.{
  Registry, is_owner_or, load_each, save_each_pool, set_tokens_per_second,
}
use astroport_core.Incentives.Activation.{
  FactoryQueries, check_points, checked_pools, disable_old, total_points, set_new, setup_pools,
  remove_blacklisted, retained, deactivate_blocked_pools,
}
use astroport_core.Incentives.Untouched.{
  KeepsStakes, keeps_refl, keeps_trans, set_each_keeps, disable_old_keeps, set_new_keeps,
}
use astroport_core.Incentives.Administered.{
  disable_active_keeps, AllLoaded, load_each_total, save_each_pool_keeps, remove_blacklisted_keeps,
}

module _ (m : Math) (chain : Chain) (registry : Registry) (factory : FactoryQueries)
    (order : Iteration) (env : Env) (info : MessageInfo) (s : Store) where
  pub setup_pools_keeps :
      (pools : List (Text × ℕ))
      → Gives (KeepsStakes s) (setup_pools m chain registry factory order env info pools s)
  unfolding setup_pools
  setup_pools_keeps pools =
      let config = s.config in
      fail_if-Gives _ (not (is_owner_or info.sender config.owner config.generator_controller))
        unauthorized _
        λ _. bind-Gives _ (check_points [] pools) _ λ checked _.
          bind-Gives _ (map_err std (factory.blacklisted_pair_types config.factory)) _
            λ blacklisted _.
              bind-Gives _ (checked_pools chain registry factory config s.blocked blacklisted pools)
                _
                λ setup _.
                  bind-Gives _ (disable_old m order env.seconds s.active_pools s) _ λ t first.
                    bind-Gives _ (total_points m 0 setup) _ λ total _.
                      let config' = record config { total_alloc_points = total } in
                      bind-Gives _ (set_new m order env.seconds config' setup t) _ λ u sets.
                        keeps_trans s t u
                          (of-Gives (KeepsStakes s) _ t
                            (disable_old_keeps m order env.seconds s.active_pools s) first)
                          (of-Gives (KeepsStakes t) _ u
                            (set_new_keeps m order env.seconds config' setup t) sets)

  pub deactivate_blocked_pools_keeps :
      Gives (KeepsStakes s) (deactivate_blocked_pools m chain registry factory order env s)
  unfolding deactivate_blocked_pools
  deactivate_blocked_pools_keeps =
      bind-Gives _ (map_err std (factory.blacklisted_pair_types s.config.factory)) _
        λ blacklisted _.
          bind-Gives _
            (remove_blacklisted m chain registry order env.seconds blacklisted s.active_pools []
              s.config.total_alloc_points s)
            _
            λ x made.
              let first =
                of-Gives (λ x. KeepsStakes s x.1.1) _ x
                  (remove_blacklisted_keeps m chain registry order env.seconds blacklisted
                    s.active_pools [] s.config.total_alloc_points s)
                  made in
              left x.0 x.1.0 x.1.1 first
    where
      left :
          (to_remove : List AssetInfo) (total : ℕ) (t : Store)
          → KeepsStakes s t
          → Gives (KeepsStakes s) (elim to_remove [
            | [] ↦ ok t
            | lp ∷ more ↦ do
              let config' = record (s.config) { total_alloc_points = total }
              let kept = retained (lp ∷ more) s.active_pools
              updated ← set_each m order env.seconds config' kept t
              ok (record updated { config = config'; active_pools = kept })
          ])
      left [] total t first = first
      left (lp ∷ more) total t first =
          let config' = record (s.config) { total_alloc_points = total } in
          let kept = retained (lp ∷ more) s.active_pools in
          bind-Gives _ (set_each m order env.seconds config' kept t) _ λ u sets.
            keeps_trans s t u first (
              of-Gives (KeepsStakes t) _ u (set_each_keeps m order env.seconds config' kept t) sets)

module _ (m : Math) (order : Iteration) (env : Env) (info : MessageInfo) (s : Store) where
  pub set_tokens_per_second_keeps :
      (amount : ℕ) → Gives (KeepsStakes s) (set_tokens_per_second m order env info amount s)
  unfolding set_tokens_per_second
  set_tokens_per_second_keeps amount =
      fail_if-Gives _ (not (text_eq info.sender s.config.owner)) unauthorized _ λ _.
        bind-Gives _ (load_each m order env.seconds s s.active_pools) _ λ pools loads.
          let config' = record (s.config) { reward_per_second = amount } in
          bind-Gives _ (save_each_pool m order env.seconds config' pools s) _ λ t saves.
            of-Gives (KeepsStakes s) _ t
              (save_each_pool_keeps m order env.seconds config' pools s (
                of-Gives (AllLoaded s) _ pools
                  (load_each_total m order env.seconds s s.active_pools) loads))
              saves

  pub deactivate_pool_keeps :
      (chain : Chain) (lp_token : Text)
      → Gives (KeepsStakes s) (deactivate_pool m chain order env info lp_token s)
  unfolding deactivate_pool
  deactivate_pool_keeps chain lp_token =
      fail_if-Gives _ (not (text_eq info.sender s.config.factory)) unauthorized _ λ _.
        bind-Gives _ (map_err std (determine_asset_info chain lp_token)) _
          λ lp _. there lp (s.pools lp)
    where
      active :
          (lp : AssetInfo) (t : Bool)
          → Gives
              (KeepsStakes s)
              (elim t [ false ↦ ok s | true ↦ disable_active m order env.seconds lp s ])
      active lp false = keeps_refl s
      active lp true = disable_active_keeps m order env.seconds lp s

      there :
          (lp : AssetInfo) (pool : Option PoolInfo)
          → Gives (KeepsStakes s) (elim pool [
            | none ↦ ok s
            | some p ↦ elim (is_active_pool p) [
              | false ↦ ok s
              | true ↦ disable_active m order env.seconds lp s
            ]
          ])
      there lp none = keeps_refl s
      there lp (some p) = active lp (is_active_pool p)
