-- ===== src/Pair/Setup.antt =====
-- What the handlers of the pair leave of its config (contracts/pair/src/contract.rs).
use astroport_core.Common.{
  ℕ, ◌≤◌, ◌<◌, ◌≡◌, refl, Bool, Option, none, some, List, arith, Bool-cases, inl, inr, leb, not_leb,
  ◌==◌,
}
use astroport_core.Cosmwasm.{Math, ok, map_err}
use astroport_core.Cosmwasm.Inversion.{map_err-ok}
use astroport_core.Cosmwasm.Outcome.{Gives, bind-Gives, of-Gives}
use astroport_core.Asset.{Asset, Addr, Text, Env, MessageInfo, Chain}
use astroport_core.Pair.Types.{std, Config, Store, Response}
use astroport_core.Pair.Calc.{accumulate_prices, accumulate}
use astroport_core.Pair.SwapSteps.{save_prices}
use astroport_core.Pair.Handlers.{swap, trade, settle, provide_liquidity, withdraw_liquidity}

-- Only the prices have changed, and their time has not gone back.
pub record Kept (before after : Config) : Type 0 where
  pub pair_info_eq : after.pair_info ≡ before.pair_info
  pub factory_addr_eq : after.factory_addr ≡ before.factory_addr
  pub track_eq : after.track_asset_balances ≡ before.track_asset_balances
  pub fee_share_eq : after.fee_share ≡ before.fee_share
  pub tracker_addr_eq : after.tracker_addr ≡ before.tracker_addr
  pub unpause_eq : after.pool_unpause_at ≡ before.pool_unpause_at
  pub time_le : before.block_time_last ≤ after.block_time_last

-- New prices are of a later time.
abbrev Later : ℕ → Option (ℕ × ℕ × ℕ) → Type 0
Later last none = Unit
Later last (some (pcl0, pcl1, time)) = last < time

accumulate_prices-Later :
    (m : Math) (now : ℕ) (config : Config) (x y : ℕ)
    → Gives (Later config.block_time_last) (accumulate_prices m now config x y)
unfolding accumulate_prices
accumulate_prices-Later m now config x y = elim (Bool-cases (leb now config.block_time_last)) [
  | inl e ↦ rw e tt
  | inr e ↦ elim (Bool-cases (x == 0)) [
    | inl e0 ↦ rw (e, e0) (not_leb _ _ e)
    | inr e0 ↦ elim (Bool-cases (y == 0)) [
      | inl e1 ↦ rw (e, e0, e1) (not_leb _ _ e)
      | inr e1 ↦
          rw (e, e0, e1)
            (bind-Gives _ (accumulate m _ _ x y) _
              λ pcl0 _. bind-Gives _ (accumulate m _ _ y x) _ λ pcl1 _. not_leb _ _ e)
    ]
  ]
]

save_prices-Later :
    (config : Config) (prices : Option (ℕ × ℕ × ℕ))
    → Later config.block_time_last prices
    → Kept config (save_prices config prices)
unfolding save_prices
save_prices-Later config none h = record {
  pair_info_eq = refl;
  factory_addr_eq = refl;
  track_eq = refl;
  fee_share_eq = refl;
  tracker_addr_eq = refl;
  unpause_eq = refl;
  time_le = omega arith;
}
save_prices-Later config (some (pcl0, pcl1, time)) h = record {
  pair_info_eq = refl;
  factory_addr_eq = refl;
  track_eq = refl;
  fee_share_eq = refl;
  tracker_addr_eq = refl;
  unpause_eq = refl;
  time_le = omega arith;
}

module _ (m : Math) (chain : Chain) where
  save_prices-Kept :
      (now : ℕ) (config : Config) (x y : ℕ) (prices : Option (ℕ × ℕ × ℕ))
      → map_err std (accumulate_prices m now config x y) ≡ ok prices
      → Kept config (save_prices config prices)
  save_prices-Kept now config x y prices h = save_prices-Later config prices (
      of-Gives (Later config.block_time_last) (accumulate_prices m now config x y) prices
        (accumulate_prices-Later m now config x y) (map_err-ok std _ h))

  abbrev KeepsConfig : Config → Response → Type 0
  KeepsConfig config r = Kept config r.store.config

  settle-Kept :
      (env : Env) (store : Store) (p0 p1 : Asset) (picked : Asset × Asset) (offer_amount : ℕ)
      (amounts : ℕ × ℕ × ℕ) (fee_address : Option Addr) (maker_rate : ℕ) (to : Addr)
      → Gives
          (KeepsConfig store.config)
          (settle m chain env store p0 p1 picked offer_amount amounts fee_address maker_rate to)
  unfolding settle
  settle-Kept env store p0 p1 picked offer_amount amounts fee_address maker_rate to =
      search (bind-Gives, save_prices-Kept) depth 40

  trade-Kept :
      (env : Env) (store : Store) (offer p0 p1 : Asset) (belief_price max_spread : Option ℕ)
      (to : Addr)
      → Gives
          (KeepsConfig store.config)
          (trade m chain env store offer p0 p1 belief_price max_spread to)
  unfolding trade
  trade-Kept env store offer p0 p1 belief_price max_spread to =
      search (bind-Gives, settle-Kept) depth 40

  pub swap-Kept :
      (env : Env) (info : MessageInfo) (store : Store) (sender : Addr) (offer : Asset)
      (belief_price max_spread : Option ℕ) (to : Option Addr)
      → Gives
          (KeepsConfig store.config)
          (swap m chain env info store sender offer belief_price max_spread to)
  unfolding swap
  swap-Kept env info store sender offer belief_price max_spread to =
      search (bind-Gives, trade-Kept) depth 40

  pub provide_liquidity-Kept :
      (env : Env) (info : MessageInfo) (store : Store) (assets : List Asset)
      (slippage_tolerance : Option ℕ) (auto_stake : Option Bool) (receiver : Option Text)
      (min_lp : Option ℕ)
      → Gives (KeepsConfig store.config) (
          provide_liquidity m chain env info store assets slippage_tolerance auto_stake receiver
            min_lp)
  unfolding provide_liquidity
  provide_liquidity-Kept env info store assets slippage_tolerance auto_stake receiver min_lp =
      search (bind-Gives, save_prices-Kept) depth 40

  pub withdraw_liquidity-Kept :
      (env : Env) (info : MessageInfo) (store : Store) (assets : List Asset)
      (minimums : Option (List Asset))
      → Gives (KeepsConfig store.config) (withdraw_liquidity m chain env info store assets minimums)
  unfolding withdraw_liquidity
  withdraw_liquidity-Kept env info store assets minimums =
      search (bind-Gives, save_prices-Kept) depth 40
