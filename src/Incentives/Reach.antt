-- ===== src/Incentives/Reach.antt =====
-- The contract under all of its calls (contracts/tokenomics/incentives/src/execute.rs, reply.rs).
use astroport_core.Common.{
  ℕ, Bool, true, false, Option, none, some, List, [], ◌∷◌, ◌≡◌, refl, sym, ap, ◌∙◌, leb, ◌==◌, not,
  if◌then◌else◌, ◌&&◌, Bool-cases, inl, inr,
}
use astroport_core.Cosmwasm.{
  Result, ok, Math, exact, IsDocumented, eq-exact, StdError, ◌>>=◌, or_err, or_panic, map_err,
}
use astroport_core.Cosmwasm.Outcome.{Gives, bind-Gives, of-Gives, fail_if-Gives}
use astroport_core.Asset.{
  text_eq, Text, AssetInfo, Chain, Env, MessageInfo, CosmosMsg, native_token,
}
use astroport_core.Asset.{check, addr_opt_validate}
use astroport_core.Ownership.Proposals.{propose_new_owner, drop_ownership_proposal, claim_ownership}
use astroport_core.Incentives.Types.{
  ContractError, std, unauthorized, payment_error, failed_to_parse_reply,
}
use astroport_core.Incentives.Storage.{
  IncentivizationFeeInfo, Store, Iteration, Transfer, Pending, reply, orphaned_of, put_orphan,
  first_dynamic_reply_id, post_transfer_reply_id,
}
use astroport_core.Incentives.Messages.{InstantiateMsg, ExecuteMsg}
use astroport_core.Incentives.Settings.{
  GeneratorControllerUpdate, with_controller, with_guardian, with_fee_info, with_gas_limit,
  update_config,
}
use astroport_core.Incentives.Blocklist.{Registry}
use astroport_core.Incentives.Activation.{FactoryQueries}
use astroport_core.Incentives.Staking.{Outcome, deposit_coin}
use astroport_core.Incentives.Entry.{
  fresh_config, instantiate, execute, silent, transfers_only, messages_only,
}
use astroport_core.Incentives.Kept.{total_of}
use astroport_core.Incentives.Stakes.{sum_amounts}
use astroport_core.Incentives.Staked.{IsBacked}
use astroport_core.Incentives.Backing.{deposit-IsBacked, withdraw-IsBacked}
use astroport_core.Incentives.Claimed.{claim-IsBacked}
use astroport_core.Incentives.Untouched.{KeepsStakes, keeps_refl}
use astroport_core.Incentives.Handled.{
  setup_pools_keeps, deactivate_blocked_pools_keeps, set_tokens_per_second_keeps,
  deactivate_pool_keeps,
}
use astroport_core.Incentives.Funded.{incentivize_many_keeps}
use astroport_core.Incentives.Served.{
  update_blocked_pool_tokens_keeps, remove_reward_from_pool_keeps, claim_orphaned_rewards_keeps,
}

Backed-later : (s t : Store) → IsBacked s → KeepsStakes s t → IsBacked t
Backed-later s t backed keeps a = ap (λ p. sum_amounts (p a)) keeps.0 ∙ backed a ∙ sym (keeps.1 a)

-- A call that leaves the stakes alone, and what it answers.
module _ (s : Store) (backed : IsBacked s) where
  silent-IsBacked :
      (r : Result ContractError Store)
      → Gives (KeepsStakes s) r
      → Gives (λ x. IsBacked x.0) (silent r)
  silent-IsBacked r keeps =
      bind-Gives _ r _ λ t is. Backed-later s t backed (of-Gives (KeepsStakes s) r t keeps is)

  transfers_only-IsBacked :
      (r : Result ContractError (Store × List Transfer))
      → Gives (λ x. KeepsStakes s x.0) r
      → Gives (λ x. IsBacked x.0) (transfers_only r)
  transfers_only-IsBacked r keeps =
      bind-Gives _ r _
        λ x is. Backed-later s x.0 backed (of-Gives (λ x. KeepsStakes s x.0) r x keeps is)

  messages_only-IsBacked :
      (r : Result ContractError (Store × List CosmosMsg))
      → Gives (λ x. KeepsStakes s x.0) r
      → Gives (λ x. IsBacked x.0) (messages_only r)
  messages_only-IsBacked r keeps =
      bind-Gives _ r _
        λ x is. Backed-later s x.0 backed (of-Gives (λ x. KeepsStakes s x.0) r x keeps is)

update_config_keeps :
    (chain : Chain) (info : MessageInfo) (s : Store) (controller : GeneratorControllerUpdate)
    (guardian : Option Text) (fee_info : Option IncentivizationFeeInfo) (gas_limit : Option ℕ)
    → Gives (KeepsStakes s) (update_config chain info controller guardian fee_info gas_limit s)
unfolding update_config
update_config_keeps chain info s controller guardian fee_info gas_limit =
    fail_if-Gives _ (not (text_eq info.sender s.config.owner)) unauthorized _ λ _.
      bind-Gives _ (with_controller chain controller s.config) _ λ c1 _.
        bind-Gives _ (with_guardian chain guardian c1) _ λ c2 _.
          bind-Gives _ (with_fee_info chain fee_info c2) _
            λ c3 _. bind-Gives _ (with_gas_limit gas_limit c3) _ λ c4 _. keeps_refl s

module _ (chain : Chain) (registry : Registry) (factory : FactoryQueries) (order : Iteration)
    (from_utf8 : Text → Result StdError Text) (env : Env) (info : MessageInfo) (s : Store)
    (backed : IsBacked s) where
  execute-IsBacked :
      (msg : ExecuteMsg)
      → Gives
          (λ x. IsBacked x.0)
          (execute exact chain registry factory order from_utf8 env info s msg)
  unfolding execute deposit_coin
  execute-IsBacked (ExecuteMsg.setup_pools pools) =
      silent-IsBacked s backed _
        (setup_pools_keeps exact chain registry factory order env info s pools)
  execute-IsBacked (ExecuteMsg.claim_rewards lp_tokens) =
      claim-IsBacked chain order env info lp_tokens s backed
  execute-IsBacked (ExecuteMsg.deposit recipient) =
      bind-Gives _ (or_err payment_error (chain.one_coin info)) _ λ coin _.
        deposit-IsBacked chain registry factory order env
          (record { info = native_token coin.denom; amount = coin.coin_amount }) info.sender
          recipient s backed
  execute-IsBacked (ExecuteMsg.withdraw lp_token amount) =
      withdraw-IsBacked chain registry factory order env info lp_token amount s backed
  execute-IsBacked (ExecuteMsg.set_tokens_per_second amount) =
      silent-IsBacked s backed _ (set_tokens_per_second_keeps exact order env info s amount)
  execute-IsBacked (ExecuteMsg.incentivize lp_token schedule) = messages_only-IsBacked s backed _ (
      incentivize_many_keeps exact chain registry factory order env info ((lp_token, schedule) ∷ [])
        s)
  execute-IsBacked (ExecuteMsg.incentivize_many incentives) =
      messages_only-IsBacked s backed _
        (incentivize_many_keeps exact chain registry factory order env info incentives s)
  execute-IsBacked (ExecuteMsg.remove_reward_from_pool lp_token reward bypass receiver) =
      transfers_only-IsBacked s backed _ (
        remove_reward_from_pool_keeps exact chain registry order env info s lp_token reward bypass
          receiver)
  execute-IsBacked (ExecuteMsg.claim_orphaned_rewards limit receiver) =
      transfers_only-IsBacked s backed _
        (claim_orphaned_rewards_keeps exact from_utf8 chain info limit receiver s)
  execute-IsBacked (ExecuteMsg.update_config controller guardian fee_info gas_limit) =
      silent-IsBacked s backed _
        (update_config_keeps chain info s controller guardian fee_info gas_limit)
  execute-IsBacked (ExecuteMsg.update_blocked_tokenslist add_tokens remove_tokens) =
      silent-IsBacked s backed _ (
        update_blocked_pool_tokens_keeps exact chain registry order env info s add_tokens
          remove_tokens)
  execute-IsBacked (ExecuteMsg.deactivate_pool lp_token) =
      silent-IsBacked s backed _ (deactivate_pool_keeps exact order env info s chain lp_token)
  execute-IsBacked ExecuteMsg.deactivate_blocked_pools =
      silent-IsBacked s backed _
        (deactivate_blocked_pools_keeps exact chain registry factory order env info s)
  execute-IsBacked (ExecuteMsg.propose_new_owner owner expires_in) =
      bind-Gives _
        (map_err std (propose_new_owner exact chain info env owner expires_in s.config.owner)) _
        λ proposal _. backed
  execute-IsBacked ExecuteMsg.drop_ownership_proposal =
      bind-Gives _ (map_err std (drop_ownership_proposal info s.config.owner)) _
        λ proposal _. backed
  execute-IsBacked ExecuteMsg.claim_ownership =
      bind-Gives _ (map_err std (claim_ownership info env s.proposal)) _ λ owner _. backed

reply-IsBacked :
    (id : ℕ) (success : Bool) (s : Store) → IsBacked s → Gives IsBacked (reply exact id success s)
unfolding reply put_orphan
reply-IsBacked id success s backed = elim (Bool-cases (leb first_dynamic_reply_id id)) [
  | inr e ↦
      rw (e, reply)
        (fail_if-Gives IsBacked (not (id == post_transfer_reply_id && not success))
          failed_to_parse_reply _ λ _. backed)
  | inl e ↦ rw (e, reply) (waits (s.pending id) success)
]
  where
    collected : Store
    collected = record s { pending = λ other. if other == id then none else s.pending other }

    waits :
        (pending : Option Pending) (b : Bool)
        → Gives {E = ContractError} IsBacked (elim pending [
          | none ↦ ok s
          | some p ↦ elim b [
            | true ↦ ok collected
            | false ↦ do
              total ← or_panic (exact.checked_add 128 (orphaned_of s p.reward_key) p.pending_amount)
              ok (put_orphan p.reward_key total collected)
          ]
        ])
    waits none b = backed
    waits (some p) true = backed
    waits (some p) false =
        bind-Gives _
          (or_panic (exact.checked_add 128 (orphaned_of s p.reward_key) p.pending_amount)) _
          λ total _. backed

-- The storages that the contract can have, with all parameters of each call free.
pub data Reachable (m : Math) : Store → Type 0 where
  instantiated :
      {s : Store} (chain : Chain) (msg : InstantiateMsg)
      → instantiate chain msg ≡ ok s
      → Reachable m s
  executed :
      {s : Store} (chain : Chain) (registry : Registry) (factory : FactoryQueries)
      (order : Iteration) (from_utf8 : Text → Result StdError Text) (env : Env) (info : MessageInfo)
      (msg : ExecuteMsg) (x : Outcome)
      → Reachable m s
      → execute m chain registry factory order from_utf8 env info s msg ≡ ok x
      → Reachable m x.0
  replied :
      {s t : Store} (id : ℕ) (success : Bool)
      → Reachable m s
      → reply m id success s ≡ ok t
      → Reachable m t

instantiate-IsBacked :
    (chain : Chain) (msg : InstantiateMsg) → Gives IsBacked (instantiate chain msg)
unfolding instantiate sum_amounts
instantiate-IsBacked chain msg =
    let P = IsBacked in
    bind-Gives P (map_err std (check chain msg.reward_token)) _ λ checked _.
      bind-Gives P (with_fee_info chain msg.incentivization_fee_info (fresh_config msg)) _
        λ config _. bind-Gives P (map_err std (chain.addr_validate msg.owner)) _ λ owner _.
          bind-Gives P (map_err std (chain.addr_validate msg.factory)) _ λ factory _.
            bind-Gives P (map_err std (addr_opt_validate chain msg.guardian)) _ λ guardian _ a. refl

Reachable-exact : {s : Store} → Reachable exact s → IsBacked s
Reachable-exact (instantiated {s} chain msg run) =
    of-Gives IsBacked _ s (instantiate-IsBacked chain msg) run
Reachable-exact (executed {s} chain registry factory order from_utf8 env info msg x reach run) =
    of-Gives (λ (x : Outcome). IsBacked x.0) _ x
      (execute-IsBacked chain registry factory order from_utf8 env info s (Reachable-exact reach)
        msg)
      run
Reachable-exact (replied {s} {t} id success reach run) =
    of-Gives IsBacked _ t (reply-IsBacked id success s (Reachable-exact reach)) run

-- Whatever is called, in whatever order, by whomever and on whatever chain, and whichever transfers
-- fail: the LP tokens that a pool counts are the sum of the positions of its stakers.
pub Reachable-IsBacked :
    {m : Math}
    → IsDocumented m
    → (store : Store) → Reachable m store
    → (lp : AssetInfo) → sum_amounts (store.positions lp) ≡ total_of (store.pools lp)
Reachable-IsBacked d = rw (eq-exact d) λ store reach. Reachable-exact reach
