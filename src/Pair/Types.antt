-- ===== src/Pair/Types.antt =====
-- The state and errors of the constant product pair (contracts/pair/src/state.rs, error.rs).
use astroport_core.Common.{ℕ, Bool, Option, List}
use astroport_core.Cosmwasm.{StdError}
use astroport_core.Asset.{Addr, AssetInfo, PairInfo, CosmosMsg}

pub data ContractError : Type 0 where
  std : StdError → ContractError
  payment_error parse_reply_error conversion_overflow unauthorized cw20_direct_swap non_supported
        invalid_zero_amount max_spread_assertion allowed_spread_assertion max_slippage_assertion :
      ContractError
  provide_slippage_violation : ℕ → ℕ → ContractError
  withdraw_slippage_violation : AssetInfo → ℕ → ℕ → ContractError
  wrong_asset_length : ℕ → ℕ → ContractError
  doubling_assets asset_mismatch auto_stake_error minimum_liquidity_amount_error
        failed_to_parse_reply fee_share_out_of_bounds :
      ContractError
  pool_paused : ℕ → ContractError

pub record FeeShareConfig : Type 0 where
  pub bps : ℕ
  pub recipient : Addr

pub record Config : Type 0 where
  pub pair_info : PairInfo
  pub factory_addr : Addr
  pub block_time_last : ℕ
  pub price0_cumulative_last : ℕ
  pub price1_cumulative_last : ℕ
  pub track_asset_balances : Bool
  pub fee_share : Option FeeShareConfig
  pub tracker_addr : Option Addr
  pub pool_unpause_at : Option ℕ

-- One write into the snapshot map BALANCES: the asset, its balance, the height.
pub record Snapshot : Type 0 where
  pub asset : AssetInfo
  pub balance : ℕ
  pub at_height : ℕ

-- The storage of the contract: CONFIG, and the writes into BALANCES, newest first.
pub record Store : Type 0 where
  pub config : Config
  pub balances : List Snapshot

-- What a call returns: the new storage, which the host drops on an error, and the messages.
pub record Response : Type 0 where
  pub store : Store
  pub messages : List CosmosMsg
