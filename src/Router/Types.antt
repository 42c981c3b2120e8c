-- ===== src/Router/Types.antt =====
-- The data of the router (contracts/router/src/state.rs, error.rs, packages/astroport/src/router.rs).
use astroport_core.Common.{ℕ, Bool, Option, List}
use astroport_core.Cosmwasm.{Result, StdError}
use astroport_core.Asset.{Addr, Text, Asset, AssetInfo, native_token, Coin, PairInfo}

pub data ContractError : Type 0 where
  std : StdError → ContractError
  overflow_error unauthorized invalid_path_operations doubling_assets_path must_provide_operations
        assertion_minimum_receive swap_limit_exceeded native_swap_not_supported migration_error :
      ContractError

pub data SwapOperation : Type 0 where
  native_swap : Text → Text → SwapOperation
  astro_swap : AssetInfo → AssetInfo → SwapOperation

unfoldable pub get_target_asset_info : SwapOperation → AssetInfo
get_target_asset_info (native_swap offer_denom ask_denom) = native_token ask_denom
get_target_asset_info (astro_swap offer_asset_info ask_asset_info) = ask_asset_info

-- MAX_SWAP_OPERATIONS
abbrev pub max_swap_operations : ℕ
max_swap_operations = 50

pub record ReplyData : Type 0 where
  pub asset_info : AssetInfo
  pub prev_balance : ℕ
  pub minimum_receive : Option ℕ
  pub receiver : Text

-- CONFIG, which is the address of the factory, and REPLY_DATA.
pub record Store : Type 0 where
  pub astroport_factory : Addr
  pub reply_data : Option ReplyData

-- What a pair is asked to do.
pub record PairSwap : Type 0 where
  pub ask_asset_info : Option AssetInfo
  pub belief_price : Option ℕ
  pub max_spread : Option ℕ
  pub to : Option Text

pub record SwapStep : Type 0 where
  pub operation : SwapOperation
  pub to : Option Text
  pub max_spread : Option ℕ
  pub single : Bool

-- The messages that the router sends: one step to itself, with or without a reply on success, and a
-- swap to a pair, directly or by the hook of a token.
pub data RouterMsg : Type 0 where
  execute_step : Addr → SwapStep → Bool → RouterMsg
  swap : Addr → Coin → Asset → PairSwap → RouterMsg
  cw20_send : Addr → Addr → ℕ → PairSwap → RouterMsg

-- The answers of the factory and of the pairs to simulations.
pub record PairQueries : Type 0 where
  pub pair_info : Addr → AssetInfo → AssetInfo → Result StdError PairInfo
  pub simulation : Addr → Asset → Option AssetInfo → Result StdError ℕ
  pub reverse_simulation : Addr → Option AssetInfo → Asset → Result StdError ℕ

-- The message of `execute`; a hook that does not parse is `none`.
pub record SwapOperations : Type 0 where
  pub operations : List SwapOperation
  pub minimum_receive : Option ℕ
  pub to : Option Text
  pub max_spread : Option ℕ

pub data ExecuteMsg : Type 0 where
  receive : Text → Option SwapOperations → ExecuteMsg
  execute_swap_operations : SwapOperations → ExecuteMsg
  execute_swap_operation : SwapStep → ExecuteMsg
