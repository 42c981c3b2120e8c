-- ===== src/Router/Simulations.antt =====
-- The simulations of a route (contracts/router/src/contract.rs).
use astroport_core.Common.{ℕ, some, List, [], ◌∷◌}
use astroport_core.Cosmwasm.{Result, ok, err, ◌>>=◌, ◌>>◌, map_err}
use astroport_core.Asset.{Addr, Chain}
use astroport_core.Router.Types.{
  ContractError, std, native_swap_not_supported, SwapOperation, native_swap, astro_swap, Store,
  PairQueries,
}
use astroport_core.Router.Handlers.{assert_operations}
use mathlib.Core.List.{reverse}

module _ (q : PairQueries) (factory : Addr) where
  unfoldable pub simulate_each : ℕ → List SwapOperation → Result ContractError ℕ
  simulate_each return_amount [] = ok return_amount
  simulate_each return_amount (native_swap offer_denom ask_denom ∷ rest) =
      err native_swap_not_supported
  simulate_each return_amount (astro_swap offer_asset_info ask_asset_info ∷ rest) = do
    pair_info ← map_err std (q.pair_info factory offer_asset_info ask_asset_info)
    amount ← map_err std (
        q.simulation pair_info.contract_addr
          (record { info = offer_asset_info; amount = return_amount }) (some ask_asset_info))
    simulate_each amount rest

  -- The operations come in reverse.
  unfoldable pub reverse_each : ℕ → List SwapOperation → Result ContractError ℕ
  reverse_each step_amount [] = ok step_amount
  reverse_each step_amount (native_swap offer_denom ask_denom ∷ rest) =
      err native_swap_not_supported
  reverse_each step_amount (astro_swap offer_asset_info ask_asset_info ∷ rest) = do
    pair_info ← map_err std (q.pair_info factory offer_asset_info ask_asset_info)
    amount ← map_err std (
        q.reverse_simulation pair_info.contract_addr (some offer_asset_info)
          (record { info = ask_asset_info; amount = step_amount }))
    reverse_each amount rest

unfoldable pub simulate_swap_operations :
    Chain → PairQueries → Store → ℕ → List SwapOperation → Result ContractError ℕ
unfolding assert_operations simulate_each
simulate_swap_operations chain q store offer_amount operations = do
  assert_operations chain operations
  simulate_each q store.astroport_factory offer_amount operations

unfoldable pub simulate_reverse_swap_operations :
    Chain → PairQueries → Store → ℕ → List SwapOperation → Result ContractError ℕ
unfolding assert_operations reverse_each
simulate_reverse_swap_operations chain q store ask_amount operations = do
  assert_operations chain operations
  reverse_each q store.astroport_factory ask_amount (reverse operations)
