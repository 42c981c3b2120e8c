-- ===== src/Router/Operations.antt =====
-- One step of a route (contracts/router/src/operations.rs).
use astroport_core.Common.{ℕ, Bool, Option, none, some, not, if◌then◌else◌, ◌-◌, ◌^◌}
use astroport_core.Cosmwasm.{Result, ok, ◌>>=◌, ◌>>◌, err, fail_if, map_err}
use astroport_core.Asset.{
  Addr, Text, Asset, AssetInfo, token, native_token, text_eq, Chain, Env, MessageInfo, query_pool,
}
use astroport_core.Router.Types.{
  ContractError, std, unauthorized, native_swap_not_supported, native_swap, astro_swap, Store,
  PairSwap, SwapStep, RouterMsg, swap, cw20_send, PairQueries,
}

-- Decimal::MAX
abbrev pub decimal_max : ℕ
decimal_max = 2 ^ 128 - 1

-- Inside of a route the pair is told the greatest belief price.
unfoldable pub belief_price : Bool → Option ℕ
belief_price single = if single then none else some decimal_max

unfoldable pub asset_into_swap_msg :
    Addr → Asset → AssetInfo → Option ℕ → Option Text → Bool → RouterMsg
unfolding belief_price
asset_into_swap_msg pair_contract offer_asset ask_asset_info max_spread to single =
    let message : PairSwap = record {
      ask_asset_info = some ask_asset_info;
      belief_price = belief_price single;
      max_spread = max_spread;
      to = to;
    } in
    elim offer_asset.info [
      | native_token denom ↦
          swap pair_contract (record { denom = denom; coin_amount = offer_asset.amount })
            offer_asset message
      | token contract_addr ↦ cw20_send contract_addr pair_contract offer_asset.amount message
    ]

-- All that the router holds of the offered asset is swapped.
unfoldable pub execute_swap_operation :
    Chain → PairQueries → Env → MessageInfo → SwapStep → Store → Result ContractError RouterMsg
unfolding asset_into_swap_msg query_pool
execute_swap_operation chain q env info step store = do
  fail_if (not (text_eq env.self info.sender)) unauthorized
  elim step.operation [
    | native_swap offer_denom ask_denom ↦ err native_swap_not_supported
    | astro_swap offer_asset_info ask_asset_info ↦ do
      pair_info ← map_err std (q.pair_info store.astroport_factory offer_asset_info ask_asset_info)
      amount ← map_err std (query_pool chain offer_asset_info env.self)
      ok (
          asset_into_swap_msg pair_info.contract_addr
            (record { info = offer_asset_info; amount = amount }) ask_asset_info step.max_spread
            step.to step.single)
  ]
