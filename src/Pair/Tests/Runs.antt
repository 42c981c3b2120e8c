-- ===== src/Pair/Tests/Runs.antt =====
-- The entry points of the pair on a concrete chain.
use astroport_core.Common.{ℕ, ◌≡◌, refl, none, some, List, [], ◌∷◌, arith, false}
use astroport_core.Cosmwasm.{ok, exact, exact-IsDocumented, unwrap_or}
use astroport_core.Cosmwasm.Inversion.{ok-inj}
use astroport_core.Asset.{
  Asset, native_token, token, xyk, Chain, check, addr_opt_validate,
  assert_sent_native_token_balance, query_pools, into_msg, Env, MessageInfo, Addr, FeeInfoResponse,
  FactoryConfig, bank_send, create_denom,
}
use astroport_core.Pair.Types.{Config, Store, Response}
use astroport_core.Pair.SwapSteps.{
  save_prices, check_unpaused, pools_before_offer, pick_pools, pay_receiver, share_fee, pay_maker,
  track_swap,
}
use astroport_core.Pair.Calc.{
  compute_swap, assert_max_spread, calculate_maker_fee, accumulate, accumulate_prices,
}
use astroport_core.Asset.Types.{equal, text_eq}
use astroport_core.Asset.Denom.{validate_native_denom}
use astroport_core.Pair.Handlers.{
  InstantiateMsg, ExecuteMsg, swap_native, update, enable_fee_share, Cw20ReceiveMsg, swap, trade,
  settle,
}
use astroport_core.Pair.Entry.{
  instantiate, read_params, update_config, apply_change, reply, denom_created, execute,
  receive_cw20, is_pool_token,
}
use astroport_core.Pair.SwapRun.{SwapRun}
use astroport_core.Pair.Solvency.{IsSane, Solvent, swap-Solvent}
use astroport_core.Pair.Reach.{WellFormed, instantiated, Reachable-WellFormed}
use astroport_core.Pair.Access.{ConfigRule, execute_paused, execute-ConfigRule}

abbrev uluna : List ℕ
uluna = b'u' ∷ b'l' ∷ b'u' ∷ b'n' ∷ b'a' ∷ []

abbrev uastro : List ℕ
uastro = b'u' ∷ b'a' ∷ b's' ∷ b't' ∷ b'r' ∷ b'o' ∷ []

abbrev alice : Addr
alice = 1 ∷ []

abbrev owner : Addr
owner = 2 ∷ []

abbrev fees : FeeInfoResponse
fees = record { fee_recipient = some (3 ∷ []); total_fee_bps = 30; maker_fee_bps = 5_000 }

abbrev factory : FactoryConfig
factory = record { owner = owner; generator_address = none; maker_address = some (3 ∷ []) }

-- Every balance is 1001000, and every address is valid.
abbrev chain : Chain
chain = record {
  addr_validate = ok;
  bank_balance = λ account denom. ok (record { denom = denom; coin_amount = 1_001_000 });
  cw20_balance = λ contract account. ok 1_001_000;
  bank_supply = λ denom. ok (record { denom = denom; coin_amount = 1_000_000 });
  fee_info = λ address kind. ok fees;
  factory_config = λ address. ok factory;
  tracker_config = λ address. ok (record { code_id = 1; token_factory_addr = [] });
  must_pay = λ info denom. some 1_000;
  one_coin = λ info. none;
}

sane : IsSane chain
sane = record {
  bank_fits = λ account denom coin h. rw (← ok-inj h) (omega arith);
  cw20_fits = λ contract account amount h. rw (← ok-inj h) (omega arith);
  fees_le = λ address kind given h. rw (← ok-inj h) (omega arith, omega arith);
}

abbrev env : Env
env = record { time = 5_000; seconds = 5; height = 1; self = 9 ∷ [] }

abbrev paying : Addr → MessageInfo
paying a = record { sender = a; funds = record { denom = uluna; coin_amount = 1_000 } ∷ [] }

abbrev start_msg : InstantiateMsg
start_msg = record {
  infos = native_token uluna ∷ native_token uastro ∷ [];
  kind = xyk;
  factory = 8 ∷ [];
  init_params = none;
}

abbrev start : Config
start = record {
  pair_info = record {
    asset_infos = native_token uluna ∷ native_token uastro ∷ [];
    contract_addr = 9 ∷ [];
    liquidity_token = [];
    pair_type = xyk;
  };
  factory_addr = 8 ∷ [];
  block_time_last = 0;
  price0_cumulative_last = 0;
  price1_cumulative_last = 0;
  track_asset_balances = false;
  fee_share = none;
  tracker_addr = none;
  pool_unpause_at = none;
}

abbrev stored : Config → Store
stored config = record { config = config; balances = [] }

abbrev started : Response
started = record { store = stored start; messages = create_denom (9 ∷ []) ∷ [] }

starts : instantiate chain env start_msg ≡ ok started
unfolding instantiate check validate_native_denom equal text_eq read_params
starts = refl

Reachable-WellFormed_example : WellFormed start
Reachable-WellFormed_example =
    Reachable-WellFormed exact (stored start) (instantiated chain env start_msg started starts)

abbrev offer : Asset
offer = record { info = native_token uluna; amount = 1_000 }

-- The return less the commission of 0.3%, and the maker's half of the commission, rounded down.
abbrev swapped : Response
swapped = record {
  store = stored (record start {
    block_time_last = 5;
    price0_cumulative_last = 5_005_000;
    price1_cumulative_last = 4_995_004;
  });
  messages =
      bank_send alice (record { denom = uastro; coin_amount = 997 })
      ∷ bank_send (3 ∷ []) (record { denom = uastro; coin_amount = 1 })
      ∷ [];
}

swap_run :
    swap exact chain env (paying alice) (stored start) alice offer none none none ≡ ok swapped
unfolding swap assert_sent_native_token_balance check_unpaused query_pools pools_before_offer equal
    text_eq trade pick_pools compute_swap assert_max_spread settle pay_receiver into_msg share_fee
    pay_maker calculate_maker_fee track_swap accumulate accumulate_prices save_prices
swap_run = refl

swap-Solvent_example :
    (run : SwapRun chain env (stored start) offer (unwrap_or none alice) swapped) × Solvent
      run.traded.picked.0 run.traded.picked.1 1_000 swapped.messages
swap-Solvent_example =
    swap-Solvent exact-IsDocumented chain env (paying alice) (stored start) alice offer none none
      none swapped sane tt (omega arith) swap_run

abbrev enable : ExecuteMsg
enable = update (some (enable_fee_share 100 alice))

abbrev enabled : Response
enabled = record {
  store = stored (record start { fee_share = some (record { bps = 100; recipient = alice }) });
  messages = [];
}

enable_run : execute exact chain env (paying owner) (stored start) enable ≡ ok enabled
unfolding execute update_config apply_change text_eq
enable_run = refl

execute-ConfigRule_example : ConfigRule chain (paying owner) enable start enabled.store.config
execute-ConfigRule_example =
    execute-ConfigRule exact chain env (paying owner) (stored start) enable enabled enable_run

abbrev paused : Config
paused = record start { pool_unpause_at = some 6_000 }

execute_paused_example : ¬ (
    execute exact chain env (paying alice) (stored paused) (swap_native offer none none none)
    ≡ ok swapped)
execute_paused_example =
    execute_paused exact chain env (paying alice) (stored paused) (swap_native offer none none none)
      6_000 swapped refl (omega arith) refl

reply_run :
    reply chain env (stored start) (denom_created (some uluna))
    ≡ ok (record {
      store =
          stored
            (record start { pair_info = record (start.pair_info) { liquidity_token = uluna } });
      messages = [];
    })
unfolding reply
reply_run = refl

-- A pair of a cw20 token and a native one.
abbrev with_token : Config
with_token = record start {
  pair_info = record (start.pair_info) { asset_infos = token (7 ∷ []) ∷ native_token uastro ∷ [] };
}

abbrev by_token : MessageInfo
by_token = record { sender = 7 ∷ []; funds = [] }

abbrev hooked : Cw20ReceiveMsg
hooked = record {
  cw20_sender = alice;
  cw20_amount = 1_000;
  hook = some (record { hook_belief_price = none; hook_max_spread = none; hook_to = none });
}

abbrev token_swapped : Response
token_swapped = record {
  store = stored (record with_token {
    block_time_last = 5;
    price0_cumulative_last = 5_005_000;
    price1_cumulative_last = 4_995_004;
  });
  messages =
      bank_send alice (record { denom = uastro; coin_amount = 997 })
      ∷ bank_send (3 ∷ []) (record { denom = uastro; coin_amount = 1 })
      ∷ [];
}

token_run : receive_cw20 exact chain env by_token (stored with_token) hooked ≡ ok token_swapped
unfolding receive_cw20 is_pool_token addr_opt_validate swap assert_sent_native_token_balance
    check_unpaused query_pools pools_before_offer equal text_eq trade pick_pools compute_swap
    assert_max_spread settle pay_receiver into_msg share_fee pay_maker calculate_maker_fee
    track_swap accumulate accumulate_prices save_prices
token_run = refl
