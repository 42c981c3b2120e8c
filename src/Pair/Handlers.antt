-- ===== src/Pair/Handlers.antt =====
-- The entry points of the pair that change its state (contracts/pair/src/contract.rs). A message's
-- JSON is taken as parsed: `none` stands for a text that does not parse.
use astroport_core.Common.{
  ℕ, Bool, false, Option, List, [], ◌∷◌, ◌++◌, ◌==◌, not, ltb, if◌then◌else◌, get_elem?,
}
use astroport_core.Cosmwasm.{
  Result, ok, err, overflow, generic_err, Math, ◌>>=◌, ◌>>◌, fail_if, or_err, or_panic, map_err,
  unwrap_or,
}
use astroport_core.Asset.{
  AssetInfo, Asset, Addr, Text, Env, MessageInfo, Chain, PairType, burn, text_eq, query_pools,
  query_native_supply, assert_sent_native_token_balance, assert_coins_properly_sent,
  addr_opt_validate,
}
use astroport_core.Pair.Types.{
  ContractError, std, payment_error, provide_slippage_violation, Store, Response,
}
use astroport_core.Pair.Calc.{
  compute_swap, calculate_shares, get_share_in_assets, assert_max_spread, accumulate_prices,
  minimum_liquidity_amount,
}
use astroport_core.Pair.Deposits.{
  get_deposits_from_assets, take_deposits, save_balances, mint_liquidity_token_message,
  ensure_min_assets_to_receive, into_msgs, pool_info,
}
use astroport_core.Pair.SwapSteps.{
  save_prices, share_fee, pay_maker, pay_receiver, pools_before_offer, pick_pools, track_swap,
  check_unpaused,
}

pub record XykPoolParams : Type 0 where
  pub track : Option Bool
  pub unpause_at : Option ℕ

pub record InstantiateMsg : Type 0 where
  pub infos : List AssetInfo
  pub kind : PairType
  pub factory : Text
  -- `some none` is a text that does not parse.
  pub init_params : Option (Option XykPoolParams)

pub data XykPoolUpdateParams : Type 0 where
  enable_fee_share : ℕ → Text → XykPoolUpdateParams
  disable_fee_share : XykPoolUpdateParams

pub record SwapHook : Type 0 where
  pub hook_belief_price : Option ℕ
  pub hook_max_spread : Option ℕ
  pub hook_to : Option Text

-- A cw20 `Receive`: the sender of the tokens, their amount, and the parsed message.
pub record Cw20ReceiveMsg : Type 0 where
  pub cw20_sender : Addr
  pub cw20_amount : ℕ
  pub hook : Option SwapHook

pub data ExecuteMsg : Type 0 where
  receive : Cw20ReceiveMsg → ExecuteMsg
  provide : List Asset → Option ℕ → Option Bool → Option Text → Option ℕ → ExecuteMsg
  withdraw : List Asset → Option (List Asset) → ExecuteMsg
  swap_native : Asset → Option ℕ → Option ℕ → Option Text → ExecuteMsg
  update : Option XykPoolUpdateParams → ExecuteMsg
  -- ProposeNewOwner, DropOwnershipProposal, ClaimOwnership, Custom.
  not_handled : ExecuteMsg

abbrev pub parse : {A : Type 0} → Option A → Result ContractError A
parse = or_err (std (generic_err "Error parsing into type"))

-- The amounts of the refunds.
unfoldable pub amounts : List Asset → List ℕ
amounts [] = []
amounts (a ∷ rest) = a.amount ∷ amounts rest

module _ (m : Math) (chain : Chain) where
  -- The second half of `swap`: the payments, the tracked balances, and the accumulated prices.
  unfoldable pub settle :
      Env
      → Store
      → Asset
      → Asset
      → Asset × Asset
      → ℕ
      → ℕ × ℕ × ℕ
      → Option Addr
      → ℕ
      → Addr
      → Result ContractError Response
  settle env store p0 p1 (offer_pool, ask_pool) offer_amount
        (return_amount, spread_amount, commission_amount) fee_address maker_fee_rate receiver =
      do
        let config = store.config
        to_receiver ← pay_receiver m chain ask_pool.info return_amount receiver
        (fee_share_amount, fees, to_sharer) ←
            share_fee m chain config.fee_share ask_pool.info commission_amount
        (maker_fee_amount, to_maker) ←
            pay_maker m chain fee_address ask_pool.info fees maker_fee_rate
        tracked ←
            track_swap m chain config env.height offer_pool ask_pool offer_amount return_amount
              maker_fee_amount fee_share_amount store.balances
        prices ← map_err std (accumulate_prices m env.seconds config p0.amount p1.amount)
        ok (record {
          store = record { config = save_prices config prices; balances = tracked };
          messages = to_receiver ++ (to_sharer ++ to_maker);
        })

  -- The middle of `swap`: which pool is offered, the fees, the amounts and the limit on the spread.
  unfoldable pub trade :
      Env
      → Store
      → Asset
      → Asset
      → Asset
      → Option ℕ
      → Option ℕ
      → Addr
      → Result ContractError Response
  trade env store offer_asset p0 p1 belief_price max_spread receiver = do
    let config = store.config
    (offer_pool, ask_pool) ← pick_pools m chain offer_asset p0 p1
    fee_info ← map_err std (chain.fee_info config.factory_addr config.pair_info.pair_type)
    total_fee_rate ← or_panic (m.from_ratio 128 fee_info.total_fee_bps 10_000)
    maker_fee_rate ← or_panic (m.from_ratio 128 fee_info.maker_fee_bps 10_000)
    (return_amount, spread_amount, commission_amount) ←
        map_err std
          (compute_swap m offer_pool.amount ask_pool.amount offer_asset.amount total_fee_rate)
    before_commission ← or_panic (m.checked_add 128 return_amount commission_amount)
    assert_max_spread m belief_price max_spread offer_asset.amount before_commission spread_amount
    settle env store p0 p1 (offer_pool, ask_pool) offer_asset.amount
        (return_amount, spread_amount, commission_amount) fee_info.fee_recipient maker_fee_rate
        receiver

  unfoldable pub swap :
      Env
      → MessageInfo
      → Store
      → Addr
      → Asset
      → Option ℕ
      → Option ℕ
      → Option Addr
      → Result ContractError Response
  swap env info store sender offer_asset belief_price max_spread to = do
    map_err std (assert_sent_native_token_balance chain offer_asset info)
    let config = store.config
    check_unpaused m chain config env
    balances ← map_err std (query_pools chain config.pair_info config.pair_info.contract_addr)
    pools ← map_err std (pools_before_offer m chain offer_asset balances)
    p0 ← or_panic (get_elem? pools 0)
    p1 ← or_panic (get_elem? pools 1)
    trade env store offer_asset p0 p1 belief_price max_spread (unwrap_or to sender)

  unfoldable pub provide_liquidity :
      Env
      → MessageInfo
      → Store
      → List Asset
      → Option ℕ
      → Option Bool
      → Option Text
      → Option ℕ
      → Result ContractError Response
  provide_liquidity env info store assets slippage_tolerance auto_stake receiver min_lp_to_receive =
      do
        let config = store.config
        balances ← map_err std (query_pools chain config.pair_info config.pair_info.contract_addr)
        (d0, d1) ← get_deposits_from_assets chain assets balances
        map_err std (assert_coins_properly_sent info.funds assets config.pair_info.asset_infos)
        let staked = unwrap_or auto_stake false
        (pools, pulls) ← take_deposits m env info balances (d0 ∷ d1 ∷ [])
        p0 ← or_panic (get_elem? pools 0)
        p1 ← or_panic (get_elem? pools 1)
        total_share ← map_err std (query_native_supply chain config.pair_info.liquidity_token)
        share ← calculate_shares m (d0, d1) (p0.amount, p1.amount) total_share slippage_tolerance
        locked ←
            if total_share == 0
            then mint_liquidity_token_message chain config env.self env.self
                minimum_liquidity_amount false
            else ok []
        let min_amount_lp = unwrap_or min_lp_to_receive 0
        fail_if (ltb share min_amount_lp) (provide_slippage_violation share min_amount_lp)
        given ← map_err std (addr_opt_validate chain receiver)
        minted ←
            mint_liquidity_token_message chain config env.self (unwrap_or given info.sender) share
              staked
        tracked ←
            if config.track_asset_balances
            then save_balances (λ a d. or_err (std overflow) (m.checked_add 128 a d)) env.height
                pools (d0 ∷ d1 ∷ []) store.balances
            else ok store.balances
        prices ← map_err std (accumulate_prices m env.seconds config p0.amount p1.amount)
        ok (record {
          store = record { config = save_prices config prices; balances = tracked };
          messages = pulls ++ (locked ++ minted);
        })

  unfoldable pub withdraw_liquidity :
      Env → MessageInfo → Store → List Asset → Option (List Asset) → Result ContractError Response
  withdraw_liquidity env info store assets min_assets_to_receive = do
    let config = store.config
    coin ← or_err payment_error (chain.one_coin info)
    fail_if (not (text_eq coin.denom config.pair_info.liquidity_token)) payment_error
    (pools, total_share) ← map_err std (pool_info chain config)
    refund_assets ← elim assets [
      | [] ↦ map_err std (get_share_in_assets m pools coin.coin_amount total_share)
      | a ∷ rest ↦ err (std (generic_err "Imbalanced withdraw is currently disabled"))
    ]
    ensure_min_assets_to_receive config refund_assets min_assets_to_receive
    tracked ←
        if config.track_asset_balances
        then save_balances (λ a r. or_panic (m.checked_sub a r)) env.height pools
            (amounts refund_assets) store.balances
        else ok store.balances
    p0 ← or_panic (get_elem? pools 0)
    p1 ← or_panic (get_elem? pools 1)
    prices ← map_err std (accumulate_prices m env.seconds config p0.amount p1.amount)
    refunds ← map_err std (into_msgs refund_assets info.sender)
    ok (record {
      store = record { config = save_prices config prices; balances = tracked };
      messages =
          refunds
          ++ burn env.self
              (record { denom = config.pair_info.liquidity_token; coin_amount = coin.coin_amount })
            ∷ [];
    })
