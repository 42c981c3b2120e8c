-- ===== src/Incentives/Funded.antt =====
-- The calls that add rewards leave the stakes alone (contracts/tokenomics/incentives/src/utils.rs).
use astroport_core.Common.{List, [], ◌∷◌, ◌&&◌, not, ltb, length, if◌then◌else◌, ◌∙◌}
use astroport_core.Cosmwasm.{Math, map_err, generic_err}
use astroport_core.Cosmwasm.Outcome.{Gives, bind-Gives, of-Gives, fail_if-Gives}
use astroport_core.Asset.{Coin, Addr, Text, equal, Chain, Env, MessageInfo}
use astroport_core.Incentives.Types.{std, blocked_token}
use astroport_core.Incentives.Accrual.{update_rewards}
use astroport_core.Incentives.Schedules.{incentivize}
use astroport_core.Incentives.Inputs.{InputSchedule, from_input}
use astroport_core.Incentives.Storage.{Store, Iteration, save, determine_asset_info}
use astroport_core.Incentives.Blocklist.{Registry}
use astroport_core.Incentives.Activation.{FactoryQueries, is_valid_pool, or_new}
use astroport_core.Incentives.Incentivizing.{
  take_fee, take_reward, incentivize_pool, incentivize_each, incentivize_many, all_spent,
}
use astroport_core.Incentives.Untouched.{
  KeepsStakes, keeps_refl, keeps_trans, resave_keeps, updated_total, total_of-or_new,
}
use astroport_core.Incentives.Administered.{incentivize-total_lp}

module _ (m : Math) (chain : Chain) (registry : Registry) (factory : FactoryQueries)
    (order : Iteration) (env : Env) where
  incentivize_pool_keeps :
      (sender : Addr) (lp_token : Text) (input : InputSchedule) (funds : List Coin) (s : Store)
      → Gives
          (λ x. KeepsStakes s x.0)
          (incentivize_pool m chain registry factory order env sender lp_token input funds s)
  unfolding incentivize_pool
  incentivize_pool_keeps sender lp_token input funds s =
      bind-Gives _ (map_err std (from_input m env.seconds input)) _ λ schedule _.
        bind-Gives _ (map_err std (determine_asset_info chain lp_token)) _ λ lp _.
          fail_if-Gives _ (s.blocked schedule.reward_info) blocked_token _ λ _.
            bind-Gives _ (map_err std (is_valid_pool chain registry factory s.config lp)) _
              λ valid _.
                bind-Gives _
                  (map_err std
                    (update_rewards m env.seconds (s.schedules lp) (or_new (s.pools lp))))
                  _
                  λ updated is.
                    bind-Gives _
                      (incentivize m (s.schedules lp) updated schedule s.config.reward_token) _
                      λ x adds.
                        let is_new =
                          ltb (length updated.rewards) (length x.0.rewards)
                          && not (equal schedule.reward_info s.config.reward_token) in
                        bind-Gives _ (take_fee m s.config.incentivization_fee_info is_new funds) _
                          λ fee _.
                            bind-Gives _
                              (take_reward m sender env.self schedule.reward_info
                                input.reward.amount fee.0)
                              _
                              λ received _.
                                let t = record s {
                                  schedules = λ a. if equal a lp then x.1 else s.schedules a;
                                } in
                                bind-Gives _ (map_err std (save m order lp x.0 t)) _ λ u saves.
                                  of-Gives (KeepsStakes t) _ u
                                    (resave_keeps m order env.seconds lp x.0 t (
                                      incentivize-total_lp m (s.schedules lp) updated schedule
                                        s.config.reward_token x adds
                                      ∙ updated_total m order env.seconds (s.schedules lp)
                                          (or_new (s.pools lp)) updated is
                                      ∙ total_of-or_new (s.pools lp)))
                                    saves

  incentivize_each_keeps :
      (sender : Addr) (l : List (Text × InputSchedule)) (funds : List Coin) (s : Store)
      → Gives
          (λ x. KeepsStakes s x.0)
          (incentivize_each m chain registry factory order env sender l funds s)
  unfolding incentivize_each
  incentivize_each_keeps sender [] funds s = keeps_refl s
  incentivize_each_keeps sender ((lp_token, input) ∷ rest) funds s =
      bind-Gives _
        (incentivize_pool m chain registry factory order env sender lp_token input funds s) _
        λ x first.
          bind-Gives _ (incentivize_each m chain registry factory order env sender rest x.1.0 x.0) _
            λ y more.
              keeps_trans s x.0 y.0
                (of-Gives (λ x. KeepsStakes s x.0) _ x
                  (incentivize_pool_keeps sender lp_token input funds s) first)
                (of-Gives (λ y. KeepsStakes x.0 y.0) _ y
                  (incentivize_each_keeps sender rest x.1.0 x.0) more)

  pub incentivize_many_keeps :
      (info : MessageInfo) (l : List (Text × InputSchedule)) (s : Store)
      → Gives
          (λ x. KeepsStakes s x.0)
          (incentivize_many m chain registry factory order env info l s)
  unfolding incentivize_many
  incentivize_many_keeps info l s =
      bind-Gives _ (incentivize_each m chain registry factory order env info.sender l info.funds s)
        _
        λ x runs.
          fail_if-Gives _ (not (all_spent x.1.0))
            (std
              (generic_err "Supplied coins contain a coin that is not in the input asset vector"))
            _
            λ _.
              of-Gives (λ x. KeepsStakes s x.0) _ x
                (incentivize_each_keeps info.sender l info.funds s) runs
