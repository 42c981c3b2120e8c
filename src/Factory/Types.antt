-- ===== src/Factory/Types.antt =====
-- The state, messages and errors of the factory (contracts/factory/src/state.rs, error.rs,
-- packages/astroport/src/factory.rs).
use astroport_core.Common.{ℕ, Bool, Option, List, [], ◌∷◌, ◌&&◌, leb}
use astroport_core.Cosmwasm.{StdError}
use astroport_core.Asset.{Addr, Text, AssetInfo, PairType, xyk, stable, custom, TrackerConfig, Coin}
use astroport_core.Texts.Dict.{Dict}
use astroport_core.Ownership.Proposals.{OwnershipProposal}

pub data ContractError : Type 0 where
  std : StdError → ContractError
  unauthorized pair_was_created pair_was_registered pair_config_duplicate
        pair_config_invalid_fee_bps pair_config_not_found pair_config_disabled doubling_assets
        migration_error failed_to_parse_reply pair_config_duplicate_whitelist
        pair_config_invalid_whitelist_address :
      ContractError

pub record Config : Type 0 where
  pub owner : Addr
  pub token_code_id : ℕ
  pub generator_address : Option Addr
  pub fee_address : Option Addr
  pub whitelist_code_id : ℕ
  pub coin_registry_address : Addr

pub record PairConfig : Type 0 where
  pub code_id : ℕ
  pub pair_type : PairType
  pub total_fee_bps : ℕ
  pub maker_fee_bps : ℕ
  pub is_disabled : Bool
  pub is_generator_disabled : Bool
  pub permissioned : Bool
  pub whitelist : Option (List Text)

-- MAX_TOTAL_FEE_BPS and MAX_MAKER_FEE_BPS
abbrev pub max_total_fee_bps : ℕ
max_total_fee_bps = 10_000

abbrev pub max_maker_fee_bps : ℕ
max_maker_fee_bps = 10_000

unfoldable pub valid_fee_bps : PairConfig → Bool
valid_fee_bps c = leb c.total_fee_bps max_total_fee_bps && leb c.maker_fee_bps max_maker_fee_bps

-- `PairType::to_string`
unfoldable pub type_name : PairType → Text
type_name xyk = b'x' ∷ b'y' ∷ b'k' ∷ []
type_name stable = b's' ∷ b't' ∷ b'a' ∷ b'b' ∷ b'l' ∷ b'e' ∷ []
type_name (custom name) = b'c' ∷ b'u' ∷ b's' ∷ b't' ∷ b'o' ∷ b'm' ∷ b'-' ∷ name

pub record InstantiateMsg : Type 0 where
  pub pair_configs : List PairConfig
  pub init_token_code_id : ℕ
  pub init_fee_address : Option Text
  pub init_generator_address : Option Text
  pub init_owner : Text
  pub init_whitelist_code_id : ℕ
  pub init_coin_registry_address : Text
  pub init_tracker_config : Option TrackerConfig

pub record UpdateConfig : Type 0 where
  pub new_token_code_id : Option ℕ
  pub new_fee_address : Option Text
  pub new_generator_address : Option Text
  pub new_whitelist_code_id : Option ℕ
  pub new_coin_registry_address : Option Text

pub data ExecuteMsg : Type 0 where
  update_config : UpdateConfig → ExecuteMsg
  update_tracker : ℕ → Option Text → ExecuteMsg
  update_pair_config : PairConfig → ExecuteMsg
  create_pair : PairType → List AssetInfo → Option Text → ExecuteMsg
  deregister_pair : List AssetInfo → ExecuteMsg
  propose_owner : Text → ℕ → ExecuteMsg
  drop_proposal : ExecuteMsg
  claim_owner : ExecuteMsg

-- CONFIG, PAIRS by pair key, PAIR_CONFIGS by the name of the type, TRACKER_CONFIG, TMP_PAIR_INFO and
-- OWNERSHIP_PROPOSAL.
pub record Store : Type 0 where
  pub config : Config
  pub pairs : Dict Addr
  pub configs : Dict PairConfig
  pub tracker_config : Option TrackerConfig
  pub tmp_pair_info : Option Text
  pub proposal : Option OwnershipProposal

-- What the factory sends: the instantiation of a pair, by its admin, code, type, assets, token code,
-- factory, parameters and funds; and the end of the rewards of a liquidity token.
pub data Message : Type 0 where
  instantiate_pair :
      Addr → ℕ → PairType → List AssetInfo → ℕ → Addr → Option Text → List Coin → Message
  deactivate_pool : Addr → Text → Message

pub record Response : Type 0 where
  pub store : Store
  pub messages : List Message
