-- ===== src/Factory/Entry.antt =====
-- The entry points of the factory and its queries (contracts/factory/src/contract.rs, state.rs).
use astroport_core.Common.{
  ℕ, suc, zero, Option, none, some, List, [], ◌∷◌, not, ◌||◌, if◌then◌else◌, map, min,
}
use astroport_core.Cosmwasm.{
  Result, ok, err, StdError, generic_err, not_found, Math, ◌>>=◌, ◌>>◌, fail_if, or_err, map_err,
  unwrap_or,
}
use astroport_core.Asset.{
  Addr, Text, AssetInfo, Env, MessageInfo, Chain, PairType, PairInfo, TrackerConfig,
  FeeInfoResponse, addr_opt_validate,
}
use astroport_core.Texts.Order.{text_le}
use astroport_core.Texts.Dict.{Dict, lookup, insert, has}
use astroport_core.Ownership.Proposals.{propose_new_owner, drop_ownership_proposal, claim_ownership}
use astroport_core.Factory.Types.{
  ContractError, std, pair_was_registered, pair_config_duplicate, pair_config_invalid_fee_bps,
  failed_to_parse_reply, PairConfig, valid_fee_bps, type_name, InstantiateMsg, ExecuteMsg,
  update_config, update_tracker, update_pair_config, create_pair, deregister_pair, propose_owner,
  drop_proposal, claim_owner, Store, Response,
}
use astroport_core.Factory.Keys.{pair_key, calc_range_start}
use astroport_core.Factory.Handlers.{
  distinct_texts, execute_update_config, execute_update_pair_config, execute_create_pair,
  deregister, update_tracker_config,
}

abbrev type_names : List PairConfig → List Text
type_names = map λ pc. type_name pc.pair_type

-- The loop over the initial pair configs.
unfoldable pub save_configs :
    List PairConfig → Dict PairConfig → Result ContractError (Dict PairConfig)
save_configs [] configs = ok configs
save_configs (pc ∷ rest) configs = do
  fail_if (not (valid_fee_bps pc)) pair_config_invalid_fee_bps
  save_configs rest (insert (type_name pc.pair_type) pc configs)

unfoldable pub validated_tracker :
    Chain → Option TrackerConfig → Result ContractError (Option TrackerConfig)
validated_tracker chain none = ok none
validated_tracker chain (some tracker) = do
  address ← map_err std (chain.addr_validate tracker.token_factory_addr)
  ok (some (record { code_id = tracker.code_id; token_factory_addr = address }))

unfoldable pub instantiate : Chain → InstantiateMsg → Result ContractError Response
unfolding distinct_texts save_configs validated_tracker
instantiate chain msg = do
  owner ← map_err std (chain.addr_validate msg.init_owner)
  coin_registry_address ← map_err std (chain.addr_validate msg.init_coin_registry_address)
  generator_address ← map_err std (addr_opt_validate chain msg.init_generator_address)
  fee_address ← map_err std (addr_opt_validate chain msg.init_fee_address)
  fail_if (not (distinct_texts (type_names msg.pair_configs))) pair_config_duplicate
  configs ← save_configs msg.pair_configs []
  tracker_config ← validated_tracker chain msg.init_tracker_config
  ok (record {
    store = record {
      config = record {
        owner = owner;
        token_code_id = msg.init_token_code_id;
        generator_address = generator_address;
        fee_address = fee_address;
        whitelist_code_id = msg.init_whitelist_code_id;
        coin_registry_address = coin_registry_address;
      };
      pairs = [];
      configs = configs;
      tracker_config = tracker_config;
      tmp_pair_info = none;
      proposal = none;
    };
    messages = [];
  })

-- A reply: `none` stands for one that is not a pair's or has no data, `some none` for data that does
-- not parse, and else the address of the new pair is there.
unfoldable pub reply : Chain → Store → Option (Option Text) → Result ContractError Response
reply chain store none = err failed_to_parse_reply
reply chain store (some init_response) = do
  pair_key ← or_err (std not_found) store.tmp_pair_info
  fail_if (has pair_key store.pairs) pair_was_registered
  contract_address ←
      or_err (std (generic_err "cannot parse the instantiate response")) init_response
  pair_contract ← map_err std (chain.addr_validate contract_address)
  ok (record {
    store = record store { pairs = insert pair_key pair_contract store.pairs };
    messages = [];
  })

module _ (m : Math) (chain : Chain) (query_pair_info : Addr → Result StdError PairInfo) where
  unfoldable pub execute : Env → MessageInfo → Store → ExecuteMsg → Result ContractError Response
  execute env info store (update_config param) = execute_update_config chain info store param
  execute env info store (update_pair_config pair_config) =
      execute_update_pair_config chain info store pair_config
  execute env info store (create_pair pair_type asset_infos init_params) =
      execute_create_pair chain env info store pair_type asset_infos init_params
  execute env info store (deregister_pair asset_infos) =
      deregister chain query_pair_info info store asset_infos
  execute env info store (propose_owner owner expires_in) = do
    proposal ← map_err std (propose_new_owner m chain info env owner expires_in store.config.owner)
    ok (record { store = record store { proposal = some proposal }; messages = [] })
  execute env info store drop_proposal = do
    proposal ← map_err std (drop_ownership_proposal info store.config.owner)
    ok (record { store = record store { proposal = proposal }; messages = [] })
  execute env info store claim_owner = do
    owner ← map_err std (claim_ownership info env store.proposal)
    ok (record {
      store = record store { config = record (store.config) { owner = owner }; proposal = none };
      messages = [];
    })
  execute env info store (update_tracker code_id address) =
      update_tracker_config chain info store code_id address

unfoldable pub query_fee_info : Store → PairType → Result StdError FeeInfoResponse
query_fee_info store pair_type = do
  pair_config ← or_err not_found (lookup (type_name pair_type) store.configs)
  ok (record {
    fee_recipient = store.config.fee_address;
    total_fee_bps = pair_config.total_fee_bps;
    maker_fee_bps = pair_config.maker_fee_bps;
  })

unfoldable pub query_tracker_config : Store → Result StdError TrackerConfig
query_tracker_config store =
    or_err (generic_err "Tracker config is not set in the factory. It can't be provided")
      store.tracker_config

unfoldable pub query_pair :
    (Addr → Result StdError PairInfo) → Store → List AssetInfo → Result StdError PairInfo
query_pair query_pair_info store asset_infos = do
  pair_addr ← or_err not_found (lookup (pair_key asset_infos) store.pairs)
  query_pair_info pair_addr

-- The types that the blacklist holds.
unfoldable pub query_blacklisted_pair_types : Dict PairConfig → List PairType
query_blacklisted_pair_types [] = []
query_blacklisted_pair_types ((name, pc) ∷ rest) =
    let more = query_blacklisted_pair_types rest in
    if pc.is_disabled || pc.is_generator_disabled then pc.pair_type ∷ more else more

-- DEFAULT_LIMIT and MAX_LIMIT
abbrev pub default_limit : ℕ
default_limit = 10

abbrev pub max_limit : ℕ
max_limit = 30

-- `range` from an exclusive bound, or from the start.
unfoldable pub range_after : {V : Type 0} → Option Text → Dict V → Dict V
range_after none entries = entries
range_after (some bound) [] = []
range_after (some bound) ((k, v) ∷ entries) =
    let rest = range_after (some bound) entries in if text_le k bound then rest else (k, v) ∷ rest

-- `take(limit)`, and the values.
unfoldable pub take_values : {V : Type 0} → ℕ → Dict V → List V
take_values zero entries = []
take_values (suc n) [] = []
take_values (suc n) ((k, v) ∷ entries) = v ∷ take_values n entries

unfoldable pub read_pairs : Store → Option (List AssetInfo) → Option ℕ → List Addr
read_pairs store start_after limit =
    take_values (min (unwrap_or limit default_limit) max_limit)
      (range_after (calc_range_start start_after) store.pairs)

-- The queries of all pairs, the first error first.
unfoldable pub query_infos_of :
    (Addr → Result StdError PairInfo) → List Addr → Result StdError (List PairInfo)
query_infos_of query_pair_info [] = ok []
query_infos_of query_pair_info (a ∷ rest) = do
  pair_info ← query_pair_info a
  more ← query_infos_of query_pair_info rest
  ok (pair_info ∷ more)

unfoldable pub query_pairs :
    (Addr → Result StdError PairInfo)
    → Store
    → Option (List AssetInfo)
    → Option ℕ
    → Result StdError (List PairInfo)
query_pairs query_pair_info store start_after limit =
    query_infos_of query_pair_info (read_pairs store start_after limit)
