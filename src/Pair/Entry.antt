-- ===== src/Pair/Entry.antt =====
-- The entry points `instantiate`, `reply` and `execute` of the pair, and the update of its config
-- (contracts/pair/src/contract.rs).
use astroport_core.Common.{
  ℕ, Bool, false, Option, none, some, List, [], ◌∷◌, ◌==◌, ◌||◌, not, ltb, if◌then◌else◌, length,
  get_elem?,
}
use astroport_core.Cosmwasm.{
  Result, ok, err, generic_err, Math, ◌>>=◌, ◌>>◌, fail_if, or_panic, map_err, unwrap_or,
}
use astroport_core.Asset.{
  AssetInfo, token, Addr, Text, Env, MessageInfo, Chain, create_denom, instantiate_tracker,
  set_before_send_hook, equal, text_eq, check, addr_opt_validate, is_native_token,
}
use astroport_core.Pair.Types.{
  ContractError, std, parse_reply_error, unauthorized, cw20_direct_swap, non_supported,
  doubling_assets, failed_to_parse_reply, fee_share_out_of_bounds, Snapshot, Store, Response,
}
use astroport_core.Pair.SwapSteps.{max_fee_share_bps}
use astroport_core.Pair.Handlers.{
  XykPoolParams, InstantiateMsg, XykPoolUpdateParams, enable_fee_share, disable_fee_share,
  Cw20ReceiveMsg, ExecuteMsg, receive, provide, withdraw, swap_native, update, not_handled, parse,
  swap, provide_liquidity, withdraw_liquidity,
}

-- The reply to a submessage: the denomination that was created, if the data is there, or the address
-- of the tracking contract, if it parses.
pub data Reply : Type 0 where
  denom_created : Option Text → Reply
  tracker_instantiated : Option Addr → Reply

-- A balance of zero for each asset.
unfoldable pub zero_balances : List AssetInfo → ℕ → List Snapshot → List Snapshot
zero_balances [] height balances = balances
zero_balances (i ∷ is) height balances =
    zero_balances is height (record { asset = i; balance = 0; at_height = height } ∷ balances)

-- Whether a cw20 contract is one of the assets: the loop of `receive_cw20`.
unfoldable pub is_pool_token : List AssetInfo → Addr → Bool
is_pool_token [] sender = false
is_pool_token (i ∷ is) sender = equal i (token sender) || is_pool_token is sender

-- The optional parameters of the pool: left out, balances are not tracked and there is no pause.
unfoldable pub read_params : Option (Option XykPoolParams) → Result ContractError XykPoolParams
read_params none = ok (record { track = none; unpause_at = none })
read_params (some text) = parse text

module _ (chain : Chain) where
  unfoldable pub instantiate : Env → InstantiateMsg → Result ContractError Response
  instantiate env msg = do
    fail_if (not (length msg.infos == 2))
        (std (generic_err "asset_infos must contain exactly two elements"))
    a0 ← or_panic (get_elem? msg.infos 0)
    a1 ← or_panic (get_elem? msg.infos 1)
    map_err std (check chain a0)
    map_err std (check chain a1)
    fail_if (equal a0 a1) doubling_assets
    params ← read_params msg.init_params
    factory_addr ← map_err std (chain.addr_validate msg.factory)
    let track_asset_balances = unwrap_or params.track false
    ok (record {
      store = record {
        config = record {
          pair_info = record {
            asset_infos = msg.infos;
            contract_addr = env.self;
            liquidity_token = [];
            pair_type = msg.kind;
          };
          factory_addr = factory_addr;
          block_time_last = 0;
          price0_cumulative_last = 0;
          price1_cumulative_last = 0;
          track_asset_balances = track_asset_balances;
          fee_share = none;
          tracker_addr = none;
          pool_unpause_at = params.unpause_at;
        };
        balances = if track_asset_balances then zero_balances msg.infos env.height [] else [];
      };
      messages = create_denom env.self ∷ [];
    })

  unfoldable pub reply : Env → Store → Reply → Result ContractError Response
  reply env store (denom_created none) = err failed_to_parse_reply
  reply env store (denom_created (some new_token_denom)) = do
    let config = store.config
    messages ←
        if config.track_asset_balances
        then (do
          factory_config ← map_err std (chain.factory_config config.factory_addr)
          tracker_config ← map_err std (chain.tracker_config config.factory_addr)
          ok (
              instantiate_tracker factory_config.owner tracker_config.code_id
                tracker_config.token_factory_addr new_token_denom
              ∷ []))
        else ok []
    fail_if (not (length config.pair_info.liquidity_token == 0))
        (std (generic_err "Liquidity token is already set in the config"))
    ok (record {
      store = record store {
        config = record config {
          pair_info = record (config.pair_info) { liquidity_token = new_token_denom };
        };
      };
      messages = messages;
    })
  reply env store (tracker_instantiated none) = err parse_reply_error
  reply env store (tracker_instantiated (some contract_address)) = do
    tracker ← map_err std (chain.addr_validate contract_address)
    ok (record {
      store = record store { config = record (store.config) { tracker_addr = some tracker } };
      messages =
          set_before_send_hook env.self store.config.pair_info.liquidity_token contract_address
          ∷ [];
    })

  -- The change that the owner asks for.
  unfoldable pub apply_change : Store → XykPoolUpdateParams → Result ContractError Response
  apply_change store (enable_fee_share bps address) = do
    fail_if (bps == 0 || ltb max_fee_share_bps bps) fee_share_out_of_bounds
    recipient ← map_err std (chain.addr_validate address)
    ok (record {
      store = record store {
        config = record (store.config) {
          fee_share = some (record { bps = bps; recipient = recipient });
        };
      };
      messages = [];
    })
  apply_change store disable_fee_share = ok (record {
    store = record store { config = record (store.config) { fee_share = none } };
    messages = [];
  })

  unfoldable pub update_config :
      MessageInfo → Store → Option XykPoolUpdateParams → Result ContractError Response
  update_config info store params = do
    factory_config ← map_err std (chain.factory_config store.config.factory_addr)
    fail_if (not (text_eq info.sender factory_config.owner)) unauthorized
    change ← parse params
    apply_change store change

module _ (m : Math) (chain : Chain) where
  unfoldable pub receive_cw20 :
      Env → MessageInfo → Store → Cw20ReceiveMsg → Result ContractError Response
  receive_cw20 env info store cw20_msg = do
    hook ← parse cw20_msg.hook
    fail_if (not (is_pool_token store.config.pair_info.asset_infos info.sender)) unauthorized
    to_addr ← map_err std (addr_opt_validate chain hook.hook_to)
    swap m chain env info store cw20_msg.cw20_sender
        (record { info = token info.sender; amount = cw20_msg.cw20_amount }) hook.hook_belief_price
        hook.hook_max_spread to_addr

  unfoldable pub execute : Env → MessageInfo → Store → ExecuteMsg → Result ContractError Response
  execute env info store (receive msg) = receive_cw20 env info store msg
  execute env info store (provide assets slippage_tolerance auto_stake receiver min_lp) =
      provide_liquidity m chain env info store assets slippage_tolerance auto_stake receiver min_lp
  execute env info store (withdraw assets minimums) =
      withdraw_liquidity m chain env info store assets minimums
  execute env info store (swap_native offer_asset belief_price max_spread to) = do
    map_err std (check chain offer_asset.info)
    fail_if (not (is_native_token offer_asset.info)) cw20_direct_swap
    to_addr ← map_err std (addr_opt_validate chain to)
    swap m chain env info store info.sender offer_asset belief_price max_spread to_addr
  execute env info store (update params) = update_config chain info store params
  execute env info store not_handled = err non_supported
