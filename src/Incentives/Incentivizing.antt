-- ===== src/Incentives/Incentivizing.antt =====
-- Adding rewards to pools, paid for with the funds of the call
-- (contracts/tokenomics/incentives/src/utils.rs).
use astroport_core.Common.{
  ℕ, Bool, true, false, Option, none, some, List, [], ◌∷◌, ◌++◌, not, ◌==◌, ltb, if◌then◌else◌,
  ◌&&◌, length,
}
use astroport_core.Cosmwasm.{Result, ok, generic_err, Math, ◌>>=◌, ◌>>◌, or_err, fail_if, map_err}
use astroport_core.Asset.{
  Addr, Text, AssetInfo, token, native_token, Coin, equal, text_eq, Chain, MessageInfo, Env,
  CosmosMsg, bank_send, cw20_transfer_from,
}
use astroport_core.Incentives.Types.{
  ContractError, std, blocked_token, incentivization_fee_expected, insufficient_reward_token,
}
use astroport_core.Incentives.Accrual.{update_rewards}
use astroport_core.Incentives.Schedules.{incentivize}
use astroport_core.Incentives.Inputs.{InputSchedule, from_input}
use astroport_core.Incentives.Storage.{
  IncentivizationFeeInfo, Store, Iteration, save, determine_asset_info,
}
use astroport_core.Incentives.Blocklist.{Registry}
use astroport_core.Incentives.Activation.{FactoryQueries, is_valid_pool, or_new}

-- An amount off the first coin of a denomination.
unfoldable pub take_coin : Math → Text → ℕ → List Coin → Option (List Coin)
take_coin m denom amount [] = none
take_coin m denom amount (coin ∷ rest) =
    let later = take_coin m denom amount rest in
    if text_eq coin.denom denom
    then elim (m.checked_sub coin.coin_amount amount) [
      | none ↦ none
      | some left ↦ some (record coin { coin_amount = left } ∷ rest)
    ]
    else elim later [ none ↦ none | some more ↦ some (coin ∷ more) ]

-- The funds that are left, with the messages that a payment sends.
abbrev pub Paid : Type 0
Paid = List Coin × List CosmosMsg

-- The fee for a new external reward.
unfoldable pub take_fee :
    Math → Option IncentivizationFeeInfo → Bool → List Coin → Result ContractError Paid
unfolding take_coin
take_fee m fee_info false funds = ok (funds, [])
take_fee m none true funds = ok (funds, [])
take_fee m (some fee_info) true funds = do
  left ←
      or_err incentivization_fee_expected
        (take_coin m fee_info.fee.denom fee_info.fee.coin_amount funds)
  ok (left, bank_send fee_info.fee_receiver fee_info.fee ∷ [])

unfoldable pub take_reward :
    Math → Addr → Addr → AssetInfo → ℕ → List Coin → Result ContractError Paid
unfolding take_coin
take_reward m sender contract (token contract_addr) amount funds =
    ok (funds, cw20_transfer_from contract_addr sender contract amount ∷ [])
take_reward m sender contract (native_token denom) amount funds = do
  left ← or_err insufficient_reward_token (take_coin m denom amount funds)
  ok (left, [])

module _ (m : Math) (chain : Chain) (registry : Registry) (factory : FactoryQueries)
    (order : Iteration) (env : Env) (sender : Addr) where
  -- `incentivize`
  unfoldable pub incentivize_pool :
      Text → InputSchedule → List Coin → Store → Result ContractError (Store × Paid)
  unfolding is_valid_pool or_new take_fee take_reward
  incentivize_pool lp_token input funds store = do
    schedule ← map_err std (from_input m env.seconds input)
    lp ← map_err std (determine_asset_info chain lp_token)
    fail_if (store.blocked schedule.reward_info) blocked_token
    let config = store.config
    valid ← map_err std (is_valid_pool chain registry factory config lp)
    updated ←
        map_err std (update_rewards m env.seconds (store.schedules lp) (or_new (store.pools lp)))
    (pool, schedules') ← incentivize m (store.schedules lp) updated schedule config.reward_token
    let is_new =
        ltb (length updated.rewards) (length pool.rewards)
        && not (equal schedule.reward_info config.reward_token)
    (funds', fee) ← take_fee m config.incentivization_fee_info is_new funds
    (funds'', received) ←
        take_reward m sender env.self schedule.reward_info input.reward.amount funds'
    saved ← map_err std (
        save m order lp pool
          (record store { schedules = λ a. if equal a lp then schedules' else store.schedules a }))
    ok (saved, (funds'', fee ++ received))

  unfoldable pub incentivize_each :
      List (Text × InputSchedule) → List Coin → Store → Result ContractError (Store × Paid)
  unfolding incentivize_pool
  incentivize_each [] funds store = ok (store, (funds, []))
  incentivize_each ((lp_token, input) ∷ rest) funds store = do
    (store', (funds', messages)) ← incentivize_pool lp_token input funds store
    (store'', (funds'', more)) ← incentivize_each rest funds' store'
    ok (store'', (funds'', messages ++ more))

unfoldable pub all_spent : List Coin → Bool
all_spent [] = true
all_spent (coin ∷ rest) = coin.coin_amount == 0 && all_spent rest

unfoldable pub incentivize_many :
    Math
    → Chain
    → Registry
    → FactoryQueries
    → Iteration
    → Env
    → MessageInfo
    → List (Text × InputSchedule)
    → Store
    → Result ContractError (Store × List CosmosMsg)
unfolding incentivize_each all_spent
incentivize_many m chain registry factory order env info incentives store = do
  (store', (funds, messages)) ←
      incentivize_each m chain registry factory order env info.sender incentives info.funds store
  fail_if (not (all_spent funds))
      (std (generic_err "Supplied coins contain a coin that is not in the input asset vector"))
  ok (store', messages)
