-- ===== src/Factory/Handlers.antt =====
-- The handlers of the factory (contracts/factory/src/contract.rs).
use astroport_core.Common.{ℕ, Bool, true, false, Option, none, some, List, [], ◌∷◌, not, ◌&&◌, ◌||◌}
use astroport_core.Cosmwasm.{
  Result, ok, StdError, generic_err, not_found, ◌>>=◌, ◌>>◌, fail_if, or_err, map_err, unwrap_or,
}
use astroport_core.Asset.{
  Addr, Text, AssetInfo, Env, MessageInfo, Chain, PairType, PairInfo, text_eq,
}
use astroport_core.Texts.Dict.{lookup, insert, remove, has}
use astroport_core.Factory.Types.{
  ContractError, std, unauthorized, pair_was_created, pair_config_invalid_fee_bps,
  pair_config_not_found, pair_config_disabled, pair_config_duplicate_whitelist,
  pair_config_invalid_whitelist_address, PairConfig, valid_fee_bps, type_name, UpdateConfig, Store,
  instantiate_pair, deactivate_pool, Response, Config,
}
use astroport_core.Factory.Keys.{pair_key, check_asset_infos}

unfoldable pub contains_text : List Text → Text → Bool
contains_text [] t = false
contains_text (x ∷ xs) t = text_eq x t || contains_text xs t

-- Whether a set of the texts has as many.
unfoldable pub distinct_texts : List Text → Bool
unfolding contains_text
distinct_texts [] = true
distinct_texts (x ∷ xs) = not (contains_text xs x) && distinct_texts xs

-- The permission check of each handler.
unfoldable pub assert_owner : Config → MessageInfo → Result ContractError (Unit {0})
assert_owner config info = fail_if (not (text_eq info.sender config.owner)) unauthorized

-- A new address, validated, or the old one.
unfoldable pub validated_or :
    {A : Type 0} → Chain → (Addr → A) → A → Option Text → Result ContractError A
validated_or chain wrap old none = ok old
validated_or chain wrap old (some given) = do
  a ← map_err std (chain.addr_validate given)
  ok (wrap a)

-- The addresses of a whitelist: the error of each is replaced.
unfoldable pub check_addresses : Chain → List Text → Result ContractError (Unit {0})
check_addresses chain [] = ok tt
check_addresses chain (a ∷ rest) = do
  v ← map_err (λ e. pair_config_invalid_whitelist_address) (chain.addr_validate a)
  check_addresses chain rest

unfoldable pub check_whitelist : Chain → Option (List Text) → Result ContractError (Unit {0})
unfolding distinct_texts check_addresses
check_whitelist chain none = ok tt
check_whitelist chain (some whitelist) = do
  fail_if (not (distinct_texts whitelist)) pair_config_duplicate_whitelist
  check_addresses chain whitelist

unfoldable pub is_whitelisted : PairConfig → Text → Bool
unfolding contains_text
is_whitelisted pair_config sender = elim pair_config.whitelist [
  | some whitelist ↦ contains_text whitelist sender
  | none ↦ false
]

module _ (chain : Chain) where
  unfoldable pub execute_update_config :
      MessageInfo → Store → UpdateConfig → Result ContractError Response
  unfolding assert_owner validated_or
  execute_update_config info store param = do
    let config = store.config
    assert_owner config info
    fee_address ← validated_or chain some config.fee_address param.new_fee_address
    generator_address ← validated_or chain some config.generator_address param.new_generator_address
    coin_registry_address ←
        validated_or chain (λ a. a) config.coin_registry_address param.new_coin_registry_address
    ok (record {
      store = record store {
        config = record config {
          fee_address = fee_address;
          generator_address = generator_address;
          token_code_id = unwrap_or param.new_token_code_id config.token_code_id;
          whitelist_code_id = unwrap_or param.new_whitelist_code_id config.whitelist_code_id;
          coin_registry_address = coin_registry_address;
        };
      };
      messages = [];
    })

  unfoldable pub execute_update_pair_config :
      MessageInfo → Store → PairConfig → Result ContractError Response
  unfolding assert_owner check_whitelist
  execute_update_pair_config info store pair_config = do
    assert_owner store.config info
    fail_if (not (valid_fee_bps pair_config)) pair_config_invalid_fee_bps
    check_whitelist chain pair_config.whitelist
    ok (record {
      store = record store {
        configs = insert (type_name pair_config.pair_type) pair_config store.configs;
      };
      messages = [];
    })

  unfoldable pub execute_create_pair :
      Env
      → MessageInfo
      → Store
      → PairType
      → List AssetInfo
      → Option Text
      → Result ContractError Response
  unfolding is_whitelisted
  execute_create_pair env info store pair_type asset_infos init_params = do
    check_asset_infos chain asset_infos
    let config = store.config
    fail_if (has (pair_key asset_infos) store.pairs) pair_was_created
    pair_config ← or_err pair_config_not_found (lookup (type_name pair_type) store.configs)
    fail_if
        (pair_config.permissioned
          && (not (text_eq info.sender config.owner)
              && not (is_whitelisted pair_config info.sender)))
        unauthorized
    fail_if pair_config.is_disabled pair_config_disabled
    ok (record {
      store = record store { tmp_pair_info = some (pair_key asset_infos) };
      messages =
          instantiate_pair config.owner pair_config.code_id pair_type asset_infos
            config.token_code_id env.self init_params info.funds
          ∷ [];
    })

  -- What a pair contract answers to `QueryMsg::Pair`.
  unfoldable pub deregister :
      (Addr → Result StdError PairInfo)
      → MessageInfo
      → Store
      → List AssetInfo
      → Result ContractError Response
  unfolding assert_owner
  deregister query_pair_info info store asset_infos = do
    check_asset_infos chain asset_infos
    let config = store.config
    assert_owner config info
    pair_addr ← or_err (std not_found) (lookup (pair_key asset_infos) store.pairs)
    messages ← elim config.generator_address [
      | none ↦ ok []
      | some generator ↦ do
        pair_info ← map_err std (query_pair_info pair_addr)
        ok (deactivate_pool generator pair_info.liquidity_token ∷ [])
    ]
    ok (record {
      store = record store { pairs = remove (pair_key asset_infos) store.pairs };
      messages = messages;
    })

  unfoldable pub update_tracker_config :
      MessageInfo → Store → ℕ → Option Text → Result ContractError Response
  unfolding assert_owner
  update_tracker_config info store tracker_code_id token_factory_addr = do
    assert_owner store.config info
    tracker ← elim store.tracker_config [
      | some tracker_config ↦ ok (record tracker_config { code_id = tracker_code_id })
      | none ↦ do
        address ← or_err (std (generic_err "token_factory_addr is required")) token_factory_addr
        ok (record { code_id = tracker_code_id; token_factory_addr = address })
    ]
    ok (record { store = record store { tracker_config = some tracker }; messages = [] })
