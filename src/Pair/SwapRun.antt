-- ===== src/Pair/SwapRun.antt =====
-- What a successful swap went through: the values of every step, with the equations between them.
use astroport_core.Common.{ℕ, ◌*◌, ◌/◌, ◌≡◌, sym, ap, ◌∙◌, Option, some, List, ◌++◌, ◌+◌, get_elem?}
use astroport_core.Cosmwasm.{ok, exact, unwrap_or, fractional}
use astroport_core.Cosmwasm.Inversion.{
  bind-ok, fits-ok, ratio?-ok, some-ok, ok-inj, bind_map_err-ok,
}
use astroport_core.Asset.{
  Asset, Addr, Env, MessageInfo, Chain, CosmosMsg, FeeInfoResponse, query_pools,
  assert_sent_native_token_balance,
}
use astroport_core.Pair.Types.{std, Store, Response}
use astroport_core.Pair.Calc.{compute_swap, accumulate_prices, assert_max_spread}
use astroport_core.Pair.SwapSteps.{
  save_prices, share_fee, pay_maker, pay_receiver, pools_before_offer, pick_pools, track_swap,
  check_unpaused,
}
use astroport_core.Pair.Handlers.{swap, trade, settle}

-- The second half.
pub record Settled (chain : Chain) (env : Env) (store : Store) (p0 p1 : Asset)
    (picked : Asset × Asset) (offer_amount : ℕ) (amounts : ℕ × ℕ × ℕ) (fee_address : Option Addr)
    (maker_rate : ℕ) (to : Addr) (r : Response) : Type 0 where
  pub receiver_messages : List CosmosMsg
  pub receiver_eq : pay_receiver exact chain picked.1.info amounts.0 to ≡ ok receiver_messages
  pub shared : ℕ × ℕ × List CosmosMsg
  pub shared_eq : share_fee exact chain store.config.fee_share picked.1.info amounts.2 ≡ ok shared
  pub maker : ℕ × List CosmosMsg
  pub maker_eq : pay_maker exact chain fee_address picked.1.info shared.1 maker_rate ≡ ok maker
  pub tracked_eq :
      track_swap exact chain store.config env.height picked.0 picked.1 offer_amount amounts.0
        maker.0 shared.0 store.balances
      ≡ ok r.store.balances
  pub prices : Option (ℕ × ℕ × ℕ)
  pub prices_eq : accumulate_prices exact env.seconds store.config p0.amount p1.amount ≡ ok prices
  pub config_eq : r.store.config ≡ save_prices store.config prices
  pub messages_eq : r.messages ≡ receiver_messages ++ (shared.2 ++ maker.1)

settle-Settled :
    (chain : Chain) (env : Env) (store : Store) (p0 p1 : Asset) (picked : Asset × Asset)
    (offer_amount : ℕ) (amounts : ℕ × ℕ × ℕ) (fee_address : Option Addr) (maker_rate : ℕ)
    (to : Addr) (r : Response)
    → settle exact chain env store p0 p1 picked offer_amount amounts fee_address maker_rate to
      ≡ ok r
    → Settled chain env store p0 p1 picked offer_amount amounts fee_address maker_rate to r
unfolding settle
settle-Settled chain env store p0 p1 picked offer_amount amounts fee_address maker_rate to r h =
    let config = store.config in
    let (receiver_messages, receiver_eq, h1) =
      bind-ok (pay_receiver exact chain picked.1.info amounts.0 to) _ h in
    let (shared, shared_eq, h2) =
      bind-ok (share_fee exact chain config.fee_share picked.1.info amounts.2) _ h1 in
    let (maker, maker_eq, h3) =
      bind-ok (pay_maker exact chain fee_address picked.1.info shared.1 maker_rate) _ h2 in
    let (tracked, tracked_eq, h4) =
      bind-ok
        (track_swap exact chain config env.height picked.0 picked.1 offer_amount amounts.0 maker.0
          shared.0 store.balances)
        _ h3 in
    let (prices, prices_eq, h5) =
      bind_map_err-ok std (accumulate_prices exact env.seconds config p0.amount p1.amount) _ h4 in
    let final = sym (ok-inj h5) in
    record {
      receiver_messages = receiver_messages;
      receiver_eq = receiver_eq;
      shared = shared;
      shared_eq = shared_eq;
      maker = maker;
      maker_eq = maker_eq;
      tracked_eq = tracked_eq ∙ ap (λ (x : Response). ok x.store.balances) (sym final);
      prices = prices;
      prices_eq = prices_eq;
      config_eq = ap (λ x. x.store.config) final;
      messages_eq = ap (λ x. x.messages) final;
    }

-- The middle.
pub record Traded (chain : Chain) (env : Env) (store : Store) (offer p0 p1 : Asset) (to : Addr)
    (r : Response) : Type 0 where
  pub picked : Asset × Asset
  pub picked_eq : pick_pools exact chain offer p0 p1 ≡ ok picked
  pub fees : FeeInfoResponse
  pub fees_eq : chain.fee_info store.config.factory_addr store.config.pair_info.pair_type ≡ ok fees
  pub amounts : ℕ × ℕ × ℕ
  pub amounts_eq :
      compute_swap exact picked.0.amount picked.1.amount offer.amount
        (fees.total_fee_bps * fractional / 10_000)
      ≡ ok amounts
  pub settled :
      Settled chain env store p0 p1 picked offer.amount amounts fees.fee_recipient
        (fees.maker_fee_bps * fractional / 10_000)
        to
        r

trade-Traded :
    (chain : Chain) (env : Env) (store : Store) (offer p0 p1 : Asset)
    (belief_price max_spread : Option ℕ) (to : Addr) (r : Response)
    → trade exact chain env store offer p0 p1 belief_price max_spread to ≡ ok r
    → Traded chain env store offer p0 p1 to r
unfolding trade
trade-Traded chain env store offer p0 p1 belief_price max_spread to r h =
    let config = store.config in
    let (picked, picked_eq, h1) = bind-ok (pick_pools exact chain offer p0 p1) _ h in
    let (fees, fees_eq, h2) =
      bind_map_err-ok std (chain.fee_info config.factory_addr config.pair_info.pair_type) _ h1 in
    let (_, _, h3) = ratio?-ok _ 128 fees.total_fee_bps fractional 10_000 h2 in
    let (_, _, h4) = ratio?-ok _ 128 fees.maker_fee_bps fractional 10_000 h3 in
    let (amounts, amounts_eq, h5) =
      bind_map_err-ok std
        (compute_swap exact picked.0.amount picked.1.amount offer.amount
          (fees.total_fee_bps * fractional / 10_000))
        _ h4 in
    let (_, h6) = fits-ok _ 128 (amounts.0 + amounts.2) h5 in
    let (_, _, h7) =
      bind-ok
        (assert_max_spread exact belief_price max_spread offer.amount (amounts.0 + amounts.2)
          amounts.1)
        _ h6 in
    record {
      picked = picked;
      picked_eq = picked_eq;
      fees = fees;
      fees_eq = fees_eq;
      amounts = amounts;
      amounts_eq = amounts_eq;
      settled = settle-Settled chain env store p0 p1 picked offer.amount amounts _ _ to r h7;
    }

pub record SwapRun (chain : Chain) (env : Env) (store : Store) (offer : Asset) (to : Addr)
    (r : Response) : Type 0 where
  pub unpaused : check_unpaused exact chain store.config env ≡ ok tt
  pub balances : List Asset
  pub balances_eq :
      query_pools chain store.config.pair_info store.config.pair_info.contract_addr ≡ ok balances
  pub pools : List Asset
  pub pools_eq : pools_before_offer exact chain offer balances ≡ ok pools
  pub p0 : Asset
  pub p1 : Asset
  pub p0_eq : get_elem? pools 0 ≡ some p0
  pub p1_eq : get_elem? pools 1 ≡ some p1
  pub traded : Traded chain env store offer p0 p1 to r

pub swap-SwapRun :
    (chain : Chain) (env : Env) (info : MessageInfo) (store : Store) (sender : Addr) (offer : Asset)
    (belief_price max_spread : Option ℕ) (to : Option Addr) (r : Response)
    → swap exact chain env info store sender offer belief_price max_spread to ≡ ok r
    → SwapRun chain env store offer (unwrap_or to sender) r
unfolding swap
swap-SwapRun chain env info store sender offer belief_price max_spread to r h0 =
    let config = store.config in
    let (_, _, h1) = bind_map_err-ok std (assert_sent_native_token_balance chain offer info) _ h0 in
    let (_, unpaused, h2) = bind-ok (check_unpaused exact chain config env) _ h1 in
    let (balances, balances_eq, h3) =
      bind_map_err-ok std (query_pools chain config.pair_info config.pair_info.contract_addr) _
        h2 in
    let (pools, pools_eq, h4) =
      bind_map_err-ok std (pools_before_offer exact chain offer balances) _ h3 in
    let (p0, p0_eq, h5) = some-ok (get_elem? pools 0) _ h4 in
    let (p1, p1_eq, h6) = some-ok (get_elem? pools 1) _ h5 in
    record {
      unpaused = unpaused;
      balances = balances;
      balances_eq = balances_eq;
      pools = pools;
      pools_eq = pools_eq;
      p0 = p0;
      p1 = p1;
      p0_eq = p0_eq;
      p1_eq = p1_eq;
      traded = trade-Traded chain env store offer p0 p1 belief_price max_spread _ r h6;
    }
