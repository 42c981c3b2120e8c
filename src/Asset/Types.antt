-- ===== src/Asset/Types.antt =====
-- The data of packages/astroport/src/asset.rs, and the chain as the contracts see it.
-- Strings (denominations, addresses) are the lists of their UTF-8 bytes.
use astroport_core.Common.{ℕ, Bool, true, false, ◌&&◌, ◌||◌, Option, List, [], ◌∷◌, ◌==◌}
use astroport_core.Cosmwasm.{Result, StdError}

abbrev pub Text : Type 0
Text = List ℕ

abbrev pub Addr : Type 0
Addr = Text

unfoldable pub text_eq : Text → Text → Bool
text_eq [] [] = true
text_eq [] (y ∷ ys) = false
text_eq (x ∷ xs) [] = false
text_eq (x ∷ xs) (y ∷ ys) = x == y && text_eq xs ys

pub data AssetInfo : Type 0 where
  token : Addr → AssetInfo
  native_token : Text → AssetInfo

pub record Asset : Type 0 where
  pub info : AssetInfo
  pub amount : ℕ

pub data PairType : Type 0 where
  xyk stable : PairType
  custom : Text → PairType

pub record PairInfo : Type 0 where
  pub asset_infos : List AssetInfo
  pub contract_addr : Addr
  pub liquidity_token : Text
  pub pair_type : PairType

-- `AssetInfo::equal`, and the derived `==` of the type.
unfoldable pub equal : AssetInfo → AssetInfo → Bool
equal (native_token denom) (native_token other_denom) = text_eq denom other_denom
equal (token contract_addr) (token other_contract_addr) = text_eq contract_addr other_contract_addr
equal (native_token denom) (token contract_addr) = false
equal (token contract_addr) (native_token denom) = false

-- `contains` of a vector of asset infos.
unfoldable pub contains : List AssetInfo → AssetInfo → Bool
contains [] a = false
contains (x ∷ xs) a = equal x a || contains xs a

unfoldable pub is_native_token : AssetInfo → Bool
is_native_token (native_token denom) = true
is_native_token (token contract_addr) = false

pub record Coin : Type 0 where
  pub denom : Text
  pub coin_amount : ℕ

pub record MessageInfo : Type 0 where
  pub sender : Addr
  pub funds : List Coin

-- The block of a call, its time as a Timestamp in nanoseconds and in seconds, and the address of
-- the contract.
pub record Env : Type 0 where
  pub time : ℕ
  pub seconds : ℕ
  pub height : ℕ
  pub self : Addr

-- The messages that the contracts emit.
pub data CosmosMsg : Type 0 where
  bank_send : Addr → Coin → CosmosMsg
  cw20_transfer : Addr → Addr → ℕ → CosmosMsg
  cw20_transfer_from : Addr → Addr → Addr → ℕ → CosmosMsg
  mint : Addr → Coin → Addr → CosmosMsg
  burn : Addr → Coin → CosmosMsg
  incentives_deposit : Addr → Addr → Coin → CosmosMsg
  create_denom : Addr → CosmosMsg
  instantiate_tracker : Addr → ℕ → Addr → Text → CosmosMsg
  set_before_send_hook : Addr → Text → Addr → CosmosMsg

-- The factory's answers: fees in basis points, and its config.
pub record FeeInfoResponse : Type 0 where
  pub fee_recipient : Option Addr
  pub total_fee_bps : ℕ
  pub maker_fee_bps : ℕ

pub record FactoryConfig : Type 0 where
  pub owner : Addr
  pub generator_address : Option Addr
  pub maker_address : Option Addr

pub record TrackerConfig : Type 0 where
  pub code_id : ℕ
  pub token_factory_addr : Addr

-- What the contracts call and this repository does not define: address validation, the bank and
-- the cw20 contracts, raw and smart queries of the factory, and the payment helpers of cw_utils.
pub record Chain : Type 0 where
  pub addr_validate : Text → Result StdError Addr
  pub bank_balance : Addr → Text → Result StdError Coin
  pub cw20_balance : Addr → Addr → Result StdError ℕ
  pub bank_supply : Text → Result StdError Coin
  pub fee_info : Addr → PairType → Result StdError FeeInfoResponse
  pub factory_config : Addr → Result StdError FactoryConfig
  pub tracker_config : Addr → Result StdError TrackerConfig
  pub must_pay : MessageInfo → Text → Option ℕ
  pub one_coin : MessageInfo → Option Coin
