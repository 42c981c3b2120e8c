-- ===== src/Incentives/Administered.antt =====
-- The whole calls of the owner, the factory and the funders leave the stakes alone.
use astroport_core.Common.{
  ℕ, Bool, List, [], ◌∷◌, ◌++◌, ◌≡◌, sym, ap, ◌∙◌, Bool-cases, inl, inr, arith,
}
use astroport_core.Cosmwasm.{ok, Math, or_err, map_err, not_found}
use astroport_core.Cosmwasm.Inversion.{or_err-some}
use astroport_core.Cosmwasm.Outcome.{Gives, bind-Gives, of-Gives, Gives-map}
use astroport_core.Asset.{AssetInfo, Chain, PairType}
use astroport_core.Incentives.Types.{
  std, overflow_error, active_pool_invariant_broken, PoolInfo, Schedules, IncentivesSchedule,
}
use astroport_core.Incentives.Schedules.{incentivize, deregister_reward}
use astroport_core.Incentives.Accrual.{update_rewards}
use astroport_core.Incentives.Storage.{Config, Store, Iteration, save}
use astroport_core.Incentives.Emissions.{
  disable_internal_rewards, set_internal_rewards, change_pool, set_each, points_of, swap_remove,
  disable_active,
}
use astroport_core.Incentives.Blocklist.{Registry, query_pair_info, load_each, save_each_pool}
use astroport_core.Incentives.Activation.{is_blacklisted, remove_blacklisted}
use astroport_core.Incentives.Kept.{total_of}
use astroport_core.Incentives.Untouched.{
  KeepsStakes, keeps_refl, keeps_trans, resave_keeps, updated_total, set_internal_rewards-total_lp,
  set_each_keeps, disable_keeps,
}

-- Pools that were loaded have the LP tokens of the storage.
abbrev pub AllLoaded : Store → List (PoolInfo × (AssetInfo × ℕ)) → Type 0
AllLoaded s [] = Unit
AllLoaded s ((pool, (lp, n)) ∷ rest) = (pool.total_lp ≡ total_of (s.pools lp)) × AllLoaded s rest

AllLoaded-later :
    (s t : Store) (l : List (PoolInfo × (AssetInfo × ℕ)))
    → KeepsStakes s t
    → AllLoaded s l
    → AllLoaded t l
AllLoaded-later s t [] keeps all = tt
AllLoaded-later s t ((pool, (lp, n)) ∷ rest) keeps all =
    (all.0 ∙ sym (keeps.1 lp), AllLoaded-later s t rest keeps all.1)

pub incentivize-total_lp :
    (m : Math) (schedules : Schedules) (pool : PoolInfo) (schedule : IncentivesSchedule)
    (reward_token : AssetInfo) (x : PoolInfo × Schedules)
    → incentivize m schedules pool schedule reward_token ≡ ok x
    → x.0.total_lp ≡ pool.total_lp
unfolding incentivize
incentivize-total_lp m schedules pool schedule reward_token x run = ground arith

pub deregister-total_lp :
    (m : Math) (schedules : Schedules) (pool : PoolInfo) (asset : AssetInfo) (bypass : Bool)
    (x : PoolInfo × (Schedules × ℕ))
    → deregister_reward m schedules pool asset bypass ≡ ok x
    → x.0.total_lp ≡ pool.total_lp
unfolding deregister_reward
deregister-total_lp m schedules pool asset bypass x run = ground arith

module _ (m : Math) (order : Iteration) (now : ℕ) where
  pub disable_active_keeps :
      (lp : AssetInfo) (s : Store) → Gives (KeepsStakes s) (disable_active m order now lp s)
  unfolding disable_active
  disable_active_keeps lp s =
      bind-Gives _ (or_err active_pool_invariant_broken (points_of lp s.active_pools)) _ λ n _.
        bind-Gives _ (change_pool m order now lp (λ p. ok (disable_internal_rewards p)) s) _
          λ disabled first.
            bind-Gives _ (or_err overflow_error (m.checked_sub s.config.total_alloc_points n)) _
              λ total _.
                bind-Gives _
                  (set_each m order now (record (s.config) { total_alloc_points = total })
                    (swap_remove lp s.active_pools) disabled)
                  _
                  λ updated then_set.
                    keeps_trans s disabled updated
                      (of-Gives (KeepsStakes s) _ disabled (disable_keeps m order now lp s) first)
                      (of-Gives (KeepsStakes disabled) _ updated
                        (set_each_keeps m order now
                          (record (s.config) { total_alloc_points = total })
                          (swap_remove lp s.active_pools) disabled)
                        then_set)

  pub load_each_total :
      (s : Store) (l : List (AssetInfo × ℕ)) → Gives (AllLoaded s) (load_each m order now s l)
  unfolding load_each
  load_each_total s [] = tt
  load_each_total s ((lp, n) ∷ rest) =
      bind-Gives _ (or_err (std not_found) (s.pools lp)) _ λ pool there.
        bind-Gives _ (map_err std (update_rewards m now (s.schedules lp) pool)) _ λ updated is.
          bind-Gives _ (load_each m order now s rest) _ λ more loads. (
            updated_total m order now (s.schedules lp) pool updated is
                ∙ sym (ap total_of (or_err-some _ _ pool there)),
            of-Gives (AllLoaded s) _ more (load_each_total s rest) loads,
          )

  pub save_each_pool_keeps :
      (config : Config) (l : List (PoolInfo × (AssetInfo × ℕ))) (s : Store)
      → AllLoaded s l
      → Gives (KeepsStakes s) (save_each_pool m order now config l s)
  unfolding save_each_pool
  save_each_pool_keeps config [] s all = keeps_refl s
  save_each_pool_keeps config ((pool, (lp, n)) ∷ rest) s all =
      bind-Gives _ (set_internal_rewards m config n pool) _ λ changed made.
        bind-Gives _ (map_err std (save m order lp changed s)) _ λ t saves.
          let one =
            of-Gives (KeepsStakes s) _ t
              (resave_keeps m order now lp changed s (
                of-Gives (λ q. q.total_lp ≡ pool.total_lp) _ changed
                  (set_internal_rewards-total_lp m order now config n pool) made
                ∙ all.0))
              saves in
          Gives-map {Q = KeepsStakes s} (λ u keeps. keeps_trans s t u one keeps)
            (save_each_pool m order now config rest t)
            (save_each_pool_keeps config rest t (AllLoaded-later s t rest one all.1))

module _ (m : Math) (chain : Chain) (registry : Registry) (order : Iteration) (now : ℕ)
    (blacklisted : List PairType) where
  pub remove_blacklisted_keeps :
      (l : List (AssetInfo × ℕ)) (to_remove : List AssetInfo) (total : ℕ) (s : Store)
      → Gives
          (λ x. KeepsStakes s x.1.1)
          (remove_blacklisted m chain registry order now blacklisted l to_remove total s)
  unfolding remove_blacklisted
  remove_blacklisted_keeps [] to_remove total s = keeps_refl s
  remove_blacklisted_keeps ((lp, n) ∷ rest) to_remove total s =
      bind-Gives _ (or_err (std not_found) (s.pools lp)) _ λ pool _.
        bind-Gives _ (map_err std (query_pair_info chain registry lp)) _ λ pair_info _.
          elim (Bool-cases (is_blacklisted pair_info.pair_type blacklisted)) [
            | inr e ↦ rw e (remove_blacklisted_keeps rest to_remove total s)
            | inl e ↦ rw e (
                bind-Gives _ (change_pool m order now lp (λ p. ok (disable_internal_rewards p)) s) _
                  λ t first.
                    bind-Gives _ (or_err overflow_error (m.checked_sub total n)) _ λ total' _.
                      Gives-map {Q = λ x. KeepsStakes s x.1.1}
                        (λ x keeps.
                          keeps_trans s t x.1.1
                            (of-Gives (KeepsStakes s) _ t (disable_keeps m order now lp s) first)
                            keeps)
                        (remove_blacklisted m chain registry order now blacklisted rest
                          (to_remove ++ lp ∷ []) total' t)
                        (remove_blacklisted_keeps rest (to_remove ++ lp ∷ []) total' t))
          ]
