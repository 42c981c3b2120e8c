-- ===== src/Router/Tests.antt =====
-- Concrete routes (contracts/router), and the theorems at them.
use astroport_core.Common.{ℕ, false, Option, none, some, List, [], ◌∷◌, ◌≡◌, ◌≤◌, ◌↔◌, refl, length}
use astroport_core.Cosmwasm.{
  Result, ok, err, panic, generic_err, exact, exact-IsDocumented, unwrap_or,
}
use astroport_core.Asset.{
  Addr, AssetInfo, native_token, token, Chain, Env, addr_opt_validate, query_pool,
}
use astroport_core.Asset.Types.{equal, text_eq}
use astroport_core.Asset.Checks.{check}
use astroport_core.Asset.Denom.{validate_native_denom}
use astroport_core.Pair.Calc.{assert_max_spread, max_allowed_slippage}
use astroport_core.Router.Types.{
  ContractError, SwapOperation, Store, RouterMsg, SwapOperations, max_swap_operations,
}
use astroport_core.Router.Operations.{belief_price}
use astroport_core.Router.Handlers.{assert_operations, last_target, execute_swap_operations, reply}
use astroport_core.Router.Routes.{hops, IsPath, assert_operations_iff}
use astroport_core.Router.Receipts.{Rose, execute_swap_operations-reply}
use astroport_core.Router.Spread.{assert_max_spread-belief_price}

-- A chain on which every account has this much of everything.
abbrev holding : ℕ → Chain
holding n = record {
  addr_validate = ok;
  bank_balance = λ account denom. ok (record { denom = denom; coin_amount = n });
  cw20_balance = λ contract account. ok n;
  bank_supply = λ denom. ok (record { denom = denom; coin_amount = n });
  fee_info = λ address kind. err (generic_err "");
  factory_config = λ address. err (generic_err "");
  tracker_config = λ address. err (generic_err "");
  must_pay = λ info denom. none;
  one_coin = λ info. none;
}

abbrev luna : AssetInfo
luna = native_token (b'l' ∷ b'u' ∷ b'n' ∷ b'a' ∷ [])

abbrev route : List SwapOperation
route = hops luna (token (b'a' ∷ []) ∷ token (b'b' ∷ []) ∷ [])

abbrev env : Env
env = record { time = 5_000; seconds = 5; height = 1; self = b'r' ∷ [] }

abbrev before : Store
before = record { astroport_factory = b'f' ∷ []; reply_data = none }

abbrev msg : SwapOperations
msg = record {
  operations = route;
  minimum_receive = some 30;
  to = some (b'x' ∷ []);
  max_spread = none;
}

abbrev or_before : Result ContractError (Store × List RouterMsg) → Store × List RouterMsg
or_before (ok x) = x
or_before (err e) = (before, [])
or_before panic = (before, [])

abbrev run : Store × List RouterMsg
run = or_before (execute_swap_operations (holding 10) env (b's' ∷ []) msg before)

assert_operations_passes : assert_operations (holding 10) route ≡ ok tt
unfolding assert_operations equal text_eq check validate_native_denom
assert_operations_passes = refl

assert_operations_iff_example : (assert_operations (holding 10) route ≡ ok tt) ↔ (
    (start : AssetInfo) × (stops : List AssetInfo) × (route ≡ hops start stops)
    × IsPath (holding 10) start stops
    × (1 ≤ length stops)
    × (length stops ≤ max_swap_operations))
assert_operations_iff_example = assert_operations_iff (holding 10) route

execute_swap_operations-reply_example :
    (receiver : Option Addr) × (target : AssetInfo) × (before : ℕ) × (after : ℕ)
    × (addr_opt_validate (holding 10) msg.to ≡ ok receiver)
    × (last_target route ≡ ok target)
    × (query_pool (holding 10) target (unwrap_or receiver (b's' ∷ [])) ≡ ok before)
    × (query_pool (holding 45) target (unwrap_or receiver (b's' ∷ [])) ≡ ok after)
    × Rose before after (some 30) 35
unfolding execute_swap_operations reply equal text_eq check validate_native_denom
execute_swap_operations-reply_example =
    execute_swap_operations-reply exact-IsDocumented (holding 10) (holding 45) env (b's' ∷ []) msg
      before run.0 run.1 35 refl refl

assert_max_spread-belief_price_example :
    (assert_max_spread exact (belief_price false) (some max_allowed_slippage) 1_000 1 0 ≡ ok tt)
    ↔ (max_allowed_slippage ≤ max_allowed_slippage)
assert_max_spread-belief_price_example =
    assert_max_spread-belief_price exact-IsDocumented (some max_allowed_slippage) 1_000 1 0
