-- ===== src/Incentives/Spending.antt =====
-- The funds that pay for rewards (contracts/tokenomics/incentives/src/utils.rs).
use astroport_core.Common.{
  not-false, true, List, [], ◌∷◌, not, ltb, if◌then◌else◌, ◌&&◌, length, ◌+◌, ◌≡◌, refl, sym, ap,
  arith,
}
use astroport_core.Cosmwasm.{ok, Math, exact, IsDocumented, eq-exact, map_err}
use astroport_core.Cosmwasm.Inversion.{map_err-ok}
use astroport_core.Cosmwasm.Outcome.{Gives, bind-Gives, of-Gives, fail_if-Gives}
use astroport_core.Asset.{Addr, Text, Coin, equal, Chain, MessageInfo, Env, CosmosMsg}
use astroport_core.Incentives.Types.{std, blocked_token}
use astroport_core.Incentives.Accrual.{update_rewards}
use astroport_core.Incentives.Schedules.{incentivize}
use astroport_core.Incentives.Inputs.{InputSchedule, from_input}
use astroport_core.Incentives.Storage.{Store, Iteration, save, determine_asset_info}
use astroport_core.Incentives.Blocklist.{Registry}
use astroport_core.Incentives.Activation.{FactoryQueries, is_valid_pool, or_new}
use astroport_core.Incentives.Incentivizing.{
  take_fee, take_reward, incentivize_pool, incentivize_each, all_spent, incentivize_many,
}
use astroport_core.Incentives.Funds.{
  of_denom, coins_of, sent_of, reward_of, inputs_of, Spends, take_fee-Spends, take_reward-Spends,
  sent_of-append, from_input-reward_info,
}

module _ (d : Text) (chain : Chain) (registry : Registry) (factory : FactoryQueries)
    (order : Iteration) (env : Env) (sender : Addr) where
  incentivize_pool-Spends :
      (lp_token : Text) (input : InputSchedule) (funds : List Coin) (store : Store)
      → Gives
          (λ x. Spends d funds (reward_of d input.reward.info input.reward.amount) x.1)
          (incentivize_pool exact chain registry factory order env sender lp_token input funds
            store)
  unfolding incentivize_pool
  incentivize_pool-Spends lp_token input funds store =
      bind-Gives _ (map_err std (from_input exact env.seconds input)) _ λ schedule reads.
        bind-Gives _ (map_err std (determine_asset_info chain lp_token)) _ λ lp _.
          fail_if-Gives _ (store.blocked schedule.reward_info) blocked_token _ λ _.
            bind-Gives _ (map_err std (is_valid_pool chain registry factory store.config lp)) _
              λ valid _.
                bind-Gives _
                  (map_err std (
                    update_rewards exact env.seconds (store.schedules lp)
                      (or_new (store.pools lp))))
                  _
                  λ updated _.
                    bind-Gives _
                      (incentivize exact (store.schedules lp) updated schedule
                        store.config.reward_token)
                      _
                      λ made _.
                        let is_new =
                          ltb (length updated.rewards) (length made.0.rewards)
                          && not (equal schedule.reward_info store.config.reward_token) in
                        let fees = store.config.incentivization_fee_info in
                        bind-Gives _ (take_fee exact fees is_new funds) _ λ fee takes.
                          bind-Gives _
                            (take_reward exact sender env.self schedule.reward_info
                              input.reward.amount fee.0)
                            _
                            λ received gets.
                              bind-Gives _
                                (map_err std (
                                  save exact order lp made.0 (record store {
                                    schedules =
                                        λ a. if equal a lp then made.1 else store.schedules a;
                                  })))
                                _
                                λ saved _.
                                  let one =
                                    of-Gives (Spends d funds 0) _ fee
                                      (take_fee-Spends d fees is_new funds) takes in
                                  let two =
                                    of-Gives
                                      (Spends d fee.0
                                        (reward_of d schedule.reward_info input.reward.amount))
                                      _ received
                                      (take_reward-Spends d sender env.self schedule.reward_info
                                        input.reward.amount fee.0)
                                      gets in
                                  let same =
                                    ap (λ info. reward_of d info input.reward.amount)
                                      (from_input-reward_info env.seconds input schedule (
                                        map_err-ok std (from_input exact env.seconds input)
                                          reads)) in
                                  omega (arith, one, two, same, sent_of-append d fee.1 received.1)

  incentivize_each-Spends :
      (incentives : List (Text × InputSchedule)) (funds : List Coin) (store : Store)
      → Gives
          (λ x. Spends d funds (inputs_of d incentives) x.1)
          (incentivize_each exact chain registry factory order env sender incentives funds store)
  unfolding incentivize_each inputs_of sent_of
  incentivize_each-Spends [] funds store = omega arith
  incentivize_each-Spends ((lp_token, input) ∷ rest) funds store =
      bind-Gives _
        (incentivize_pool exact chain registry factory order env sender lp_token input funds store)
        _
        λ x first.
          bind-Gives _
            (incentivize_each exact chain registry factory order env sender rest x.1.0 x.0) _
            λ y more.
              let one =
                of-Gives
                  (λ x. Spends d funds (reward_of d input.reward.info input.reward.amount) x.1) _ x
                  (incentivize_pool-Spends lp_token input funds store) first in
              let two =
                of-Gives (λ y. Spends d x.1.0 (inputs_of d rest) y.1) _ y
                  (incentivize_each-Spends rest x.1.0 x.0) more in
              omega (arith, one, two, sent_of-append d x.1.1 y.1.1)

coins_of-all_spent : (d : Text) (funds : List Coin) → all_spent funds ≡ true → coins_of d funds ≡ 0
unfolding coins_of all_spent of_denom
coins_of-all_spent d [] h = refl
coins_of-all_spent d (coin ∷ rest) h = ground (arith, coins_of-all_spent d rest)

incentivize_many-exact :
    (chain : Chain) (registry : Registry) (factory : FactoryQueries) (order : Iteration) (env : Env)
    (info : MessageInfo) (incentives : List (Text × InputSchedule)) (store : Store) (d : Text)
    → Gives
        (λ x. sent_of d x.1 + inputs_of d incentives ≡ coins_of d info.funds)
        (incentivize_many exact chain registry factory order env info incentives store)
unfolding incentivize_many
incentivize_many-exact chain registry factory order env info incentives store d =
    bind-Gives _
      (incentivize_each exact chain registry factory order env info.sender incentives info.funds
        store)
      _
      λ x runs. fail_if-Gives _ (not (all_spent x.1.0)) _ _ λ spent.
        let one =
          of-Gives (λ x. Spends d info.funds (inputs_of d incentives) x.1) _ x
            (incentivize_each-Spends d chain registry factory order env info.sender incentives
              info.funds store)
            runs in
        omega (arith, one, coins_of-all_spent d x.1.0 (not-false _ spent))

-- What is sent with a call that adds rewards is spent to the last coin: of each denomination the funds
-- are exactly the fees that the call sends on and the native rewards that its inputs add.
pub incentivize_many-coins_of :
    {m : Math}
    → IsDocumented m
    → (chain : Chain) (registry : Registry) (factory : FactoryQueries) (order : Iteration)
      (env : Env) (info : MessageInfo) (incentives : List (Text × InputSchedule))
      (store store' : Store) (messages : List CosmosMsg)
    → incentivize_many m chain registry factory order env info incentives store
      ≡ ok (store', messages)
    → (d : Text) → coins_of d info.funds ≡ sent_of d messages + inputs_of d incentives
incentivize_many-coins_of d =
    rw (eq-exact d)
      λ chain registry factory order env info incentives store store' messages run denom. sym (
        of-Gives (λ x. sent_of denom x.1 + inputs_of denom incentives ≡ coins_of denom info.funds) _
          (store', messages)
          (incentivize_many-exact chain registry factory order env info incentives store denom) run)
