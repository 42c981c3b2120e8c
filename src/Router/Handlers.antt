-- ===== src/Router/Handlers.antt =====
-- The entry points of the router (contracts/router/src/contract.rs).
use astroport_core.Common.{
  ℕ, Bool, true, false, Option, none, some, List, [], ◌∷◌, not, ◌==◌, ltb, length,
}
use astroport_core.Cosmwasm.{
  Result, ok, err, panic, generic_err, not_found, Math, ◌>>=◌, ◌>>◌, or_err, fail_if, map_err,
  unwrap_or,
}
use astroport_core.Asset.{
  Addr, Text, AssetInfo, equal, Chain, Env, MessageInfo, check, addr_opt_validate, query_pool,
}
use astroport_core.Router.Types.{
  ContractError, std, overflow_error, invalid_path_operations, doubling_assets_path,
  must_provide_operations, assertion_minimum_receive, swap_limit_exceeded,
  native_swap_not_supported, SwapOperation, native_swap, astro_swap, get_target_asset_info,
  max_swap_operations, Store, RouterMsg, execute_step, PairQueries, SwapOperations, ExecuteMsg,
}
use astroport_core.Router.Operations.{execute_swap_operation}

-- Whether the offered asset is not what the operation before asked for.
unfoldable pub breaks_path : Option AssetInfo → AssetInfo → Bool
breaks_path none offer_asset = false
breaks_path (some prev_ask_asset) offer_asset = not (equal prev_ask_asset offer_asset)

module _ (chain : Chain) where
  -- The loop of `assert_operations`.
  unfoldable pub check_operations :
      Option AssetInfo → List SwapOperation → Result ContractError Unit
  unfolding breaks_path check
  check_operations prev [] = ok tt
  check_operations prev (native_swap offer_denom ask_denom ∷ rest) = err native_swap_not_supported
  check_operations prev (astro_swap offer_asset ask_asset ∷ rest) = do
    map_err std (check chain offer_asset)
    map_err std (check chain ask_asset)
    fail_if (equal offer_asset ask_asset) doubling_assets_path
    fail_if (breaks_path prev offer_asset) invalid_path_operations
    check_operations (some ask_asset) rest

  unfoldable pub assert_operations : List SwapOperation → Result ContractError Unit
  unfolding check_operations
  assert_operations operations = do
    fail_if (length operations == 0) must_provide_operations
    fail_if (ltb max_swap_operations (length operations)) swap_limit_exceeded
    check_operations none operations

-- The messages of the operations: the last one goes to the receiver, and is replied to.
unfoldable pub steps : Addr → Text → Option ℕ → Bool → List SwapOperation → List RouterMsg
steps self to max_spread single [] = []
steps self to max_spread single (op ∷ []) =
    execute_step self
      (record { operation = op; to = some to; max_spread = max_spread; single = single }) true
    ∷ []
steps self to max_spread single (op ∷ next ∷ rest) =
    execute_step self
      (record { operation = op; to = none; max_spread = max_spread; single = single }) false
    ∷ steps self to max_spread single (next ∷ rest)

-- `operations.last().unwrap()`
unfoldable pub last_target : List SwapOperation → Result ContractError AssetInfo
unfolding get_target_asset_info
last_target [] = panic
last_target (op ∷ []) = ok (get_target_asset_info op)
last_target (op ∷ next ∷ rest) = last_target (next ∷ rest)

unfoldable pub execute_swap_operations :
    Chain → Env → Addr → SwapOperations → Store → Result ContractError (Store × List RouterMsg)
unfolding assert_operations steps last_target query_pool addr_opt_validate
execute_swap_operations chain env sender msg store = do
  assert_operations chain msg.operations
  receiver ← map_err std (addr_opt_validate chain msg.to)
  let to = unwrap_or receiver sender
  target_asset_info ← last_target msg.operations
  let messages = steps env.self to msg.max_spread (length msg.operations == 1) msg.operations
  prev_balance ← map_err std (query_pool chain target_asset_info to)
  ok (
    record store {
      reply_data = some (record {
        asset_info = target_asset_info;
        prev_balance = prev_balance;
        minimum_receive = msg.minimum_receive;
        receiver = to;
      });
    },
    messages,
  )

-- `receive_cw20`: the sender that the token names.
unfoldable pub receive_hook :
    Chain
    → Env
    → Text
    → Option SwapOperations
    → Store
    → Result ContractError (Store × List RouterMsg)
unfolding execute_swap_operations
receive_hook chain env sender none store = err (std (generic_err "Error parsing into Cw20HookMsg"))
receive_hook chain env sender (some msg) store = execute_swap_operations chain env sender msg store

unfoldable pub execute :
    Chain
    → PairQueries
    → Env
    → MessageInfo
    → ExecuteMsg
    → Store
    → Result ContractError (Store × List RouterMsg)
unfolding receive_hook execute_swap_operations execute_swap_operation
execute chain q env info (ExecuteMsg.receive sender hook) store =
    receive_hook chain env sender hook store
execute chain q env info (ExecuteMsg.execute_swap_operations msg) store =
    execute_swap_operations chain env info.sender msg store
execute chain q env info (ExecuteMsg.execute_swap_operation step) store = do
  message ← execute_swap_operation chain q env info step store
  ok (store, message ∷ [])

-- AFTER_SWAP_REPLY_ID
abbrev pub after_swap_reply_id : ℕ
after_swap_reply_id = 1

unfoldable pub below_minimum : Option ℕ → ℕ → Bool
below_minimum none swap_amount = false
below_minimum (some minimum_receive) swap_amount = ltb swap_amount minimum_receive

-- The answer is the amount that the receiver got.
unfoldable pub reply : Math → Chain → ℕ → Bool → Store → Result ContractError ℕ
unfolding below_minimum query_pool
reply m chain id success store = elim (id == after_swap_reply_id) [
  | false ↦ err (std (generic_err "Failed to process reply"))
  | true ↦ elim success [
    | false ↦ err (std (generic_err "Failed to process reply"))
    | true ↦ do
      reply_data ← or_err (std not_found) store.reply_data
      receiver_balance ← map_err std (query_pool chain reply_data.asset_info reply_data.receiver)
      swap_amount ← or_err overflow_error (m.checked_sub receiver_balance reply_data.prev_balance)
      fail_if (below_minimum reply_data.minimum_receive swap_amount) assertion_minimum_receive
      ok swap_amount
  ]
]

unfoldable pub instantiate : Chain → Text → Result ContractError Store
instantiate chain astroport_factory = do
  factory ← map_err std (chain.addr_validate astroport_factory)
  ok (record { astroport_factory = factory; reply_data = none })
