-- ===== src/Router/Receipts.antt =====
-- What a receiver gets by a route (contracts/router/src/contract.rs, operations.rs).
use astroport_core.Common.{
  ℕ, true, false, Option, none, some, ◌≡◌, ◌≤◌, ◌+◌, ◌-◌, refl, sym, ap, subst, List, arith,
  not_ltb,
}
use astroport_core.Cosmwasm.{ok, Math, exact, IsDocumented, eq-exact, unwrap_or}
use astroport_core.Cosmwasm.Inversion.{bind_map_err-ok, bind-ok, fail_if-ok, ok-inj, sub?_err-ok}
use astroport_core.Asset.{Addr, AssetInfo, Chain, Env, addr_opt_validate, query_pool}
use astroport_core.Router.Types.{
  std, overflow_error, assertion_minimum_receive, ReplyData, Store, RouterMsg, SwapOperations,
}
use astroport_core.Router.Handlers.{
  assert_operations, last_target, execute_swap_operations, reply, after_swap_reply_id,
  below_minimum,
}

-- A balance that rose by the amount, and by the minimum at least.
abbrev pub Rose : ℕ → ℕ → Option ℕ → ℕ → Type 0
Rose before after minimum amount = (before + amount ≡ after) × (unwrap_or minimum 0 ≤ amount)

abbrev Noted : Chain → Addr → SwapOperations → ReplyData → Type 0
Noted chain sender msg noted =
    (receiver : Option Addr) × (addr_opt_validate chain msg.to ≡ ok receiver)
    × (last_target msg.operations ≡ ok noted.asset_info)
    × (noted.receiver ≡ unwrap_or receiver sender)
    × (query_pool chain noted.asset_info noted.receiver ≡ ok noted.prev_balance)
    × (noted.minimum_receive ≡ msg.minimum_receive)

-- What a route leaves for its reply.
execute_swap_operations-Noted :
    (chain : Chain) (env : Env) (sender : Addr) (msg : SwapOperations) (store store' : Store)
    (messages : List RouterMsg)
    → execute_swap_operations chain env sender msg store ≡ ok (store', messages)
    → (noted : ReplyData) × (store'.reply_data ≡ some noted) × Noted chain sender msg noted
unfolding execute_swap_operations
execute_swap_operations-Noted chain env sender msg store store' messages h =
    let (_, _, h1) = bind-ok (assert_operations chain msg.operations) _ h in
    let (receiver, e1, h2) = bind_map_err-ok std (addr_opt_validate chain msg.to) _ h1 in
    let (target, e2, h3) = bind-ok (last_target msg.operations) _ h2 in
    let to = unwrap_or receiver sender in
    let (before, e3, h4) = bind_map_err-ok std (query_pool chain target to) _ h3 in
    (
      record {
        asset_info = target;
        prev_balance = before;
        minimum_receive = msg.minimum_receive;
        receiver = to;
      },
      sym (ap (λ x. x.0.reply_data) (ok-inj h4)),
      (receiver, e1, e2, refl, e3, refl),
    )

below_minimum_least :
    (minimum : Option ℕ) (amount : ℕ)
    → below_minimum minimum amount ≡ false
    → unwrap_or minimum 0 ≤ amount
unfolding below_minimum
below_minimum_least none amount h = omega arith
below_minimum_least (some least) amount h = not_ltb _ _ h

reply-Rose :
    (chain : Chain) (noted : ReplyData) (store : Store) (amount : ℕ)
    → store.reply_data ≡ some noted
    → reply exact chain after_swap_reply_id true store ≡ ok amount
    → (after : ℕ) × (query_pool chain noted.asset_info noted.receiver ≡ ok after)
      × Rose noted.prev_balance after noted.minimum_receive amount
unfolding reply below_minimum
reply-Rose chain noted store amount e h =
    let (after, e1, h1) =
      bind_map_err-ok std (query_pool chain noted.asset_info noted.receiver) _ (rw e at h) in
    let (le, h2) = sub?_err-ok _ after noted.prev_balance overflow_error h1 in
    let (enough, h3) =
      fail_if-ok (below_minimum noted.minimum_receive (after - noted.prev_balance))
        assertion_minimum_receive _ h2 in
    let same = ok-inj h3 in
    let least : unwrap_or noted.minimum_receive 0 ≤ after - noted.prev_balance =
      below_minimum_least noted.minimum_receive _ enough in
    (after, e1, (omega (arith, same, le), omega (arith, same, least)))

received-exact :
    (chain chain' : Chain) (env : Env) (sender : Addr) (msg : SwapOperations) (store store' : Store)
    (messages : List RouterMsg) (amount : ℕ)
    → execute_swap_operations chain env sender msg store ≡ ok (store', messages)
    → reply exact chain' after_swap_reply_id true store' ≡ ok amount
    → (receiver : Option Addr) × (target : AssetInfo) × (before : ℕ) × (after : ℕ)
      × (addr_opt_validate chain msg.to ≡ ok receiver)
      × (last_target msg.operations ≡ ok target)
      × (query_pool chain target (unwrap_or receiver sender) ≡ ok before)
      × (query_pool chain' target (unwrap_or receiver sender) ≡ ok after)
      × Rose before after msg.minimum_receive amount
received-exact chain chain' env sender msg store store' messages amount run replied =
    let (noted, e, (receiver, e1, e2, e3, e4, e5)) =
      execute_swap_operations-Noted chain env sender msg store store' messages run in
    let (after, e6, rose) = reply-Rose chain' noted store' amount e replied in
    (
      receiver,
      noted.asset_info,
      noted.prev_balance,
      after,
      e1,
      e2,
      subst (λ a. query_pool chain noted.asset_info a ≡ ok noted.prev_balance) e3 e4,
      subst (λ a. query_pool chain' noted.asset_info a ≡ ok after) e3 e6,
      subst (λ a. Rose noted.prev_balance after a amount) e5 rose,
    )

-- Where a route was started, and its reply, with no other route started in between, succeeds with an
-- amount: the balance that the receiver has of the last asset of the route has risen by exactly that
-- amount since the start, and the amount is at least the minimum that was asked for, if one was.
pub execute_swap_operations-reply :
    {m : Math}
    → IsDocumented m
    → (chain chain' : Chain) (env : Env) (sender : Addr) (msg : SwapOperations)
      (store store' : Store) (messages : List RouterMsg) (amount : ℕ)
    → execute_swap_operations chain env sender msg store ≡ ok (store', messages)
    → reply m chain' after_swap_reply_id true store' ≡ ok amount
    → (receiver : Option Addr) × (target : AssetInfo) × (before : ℕ) × (after : ℕ)
      × (addr_opt_validate chain msg.to ≡ ok receiver)
      × (last_target msg.operations ≡ ok target)
      × (query_pool chain target (unwrap_or receiver sender) ≡ ok before)
      × (query_pool chain' target (unwrap_or receiver sender) ≡ ok after)
      × Rose before after msg.minimum_receive amount
execute_swap_operations-reply d = rw (eq-exact d) received-exact
