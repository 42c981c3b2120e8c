-- ===== src/Incentives/Entry.antt =====
-- The entry points of the incentives (contracts/tokenomics/incentives/src/instantiate.rs, execute.rs).
use astroport_core.Common.{false, none, some, List, [], ◌∷◌}
use astroport_core.Cosmwasm.{Result, ok, StdError, Math, ◌>>=◌, map_err}
use astroport_core.Asset.{Text, Chain, MessageInfo, Env, CosmosMsg, check, addr_opt_validate}
use astroport_core.Ownership.Proposals.{propose_new_owner, drop_ownership_proposal, claim_ownership}
use astroport_core.Incentives.Types.{ContractError, std}
use astroport_core.Incentives.Storage.{
  Config, Store, Iteration, Transfer, first_dynamic_reply_id, remove_reward_from_pool,
}
use astroport_core.Incentives.Messages.{InstantiateMsg, ExecuteMsg}
use astroport_core.Incentives.Settings.{with_fee_info, update_config}
use astroport_core.Incentives.Emissions.{deactivate_pool}
use astroport_core.Incentives.Blocklist.{
  Registry, update_blocked_pool_tokens, set_tokens_per_second,
}
use astroport_core.Incentives.Activation.{FactoryQueries, setup_pools, deactivate_blocked_pools}
use astroport_core.Incentives.Incentivizing.{incentivize_many}
use astroport_core.Incentives.Orphans.{claim_orphaned_rewards}
use astroport_core.Incentives.Staking.{Outcome, deposit_coin, withdraw, claim}

-- The config before its addresses are validated.
abbrev pub fresh_config : InstantiateMsg → Config
fresh_config msg = record {
  owner = [];
  factory = [];
  generator_controller = none;
  reward_token = msg.reward_token;
  reward_per_second = 0;
  total_alloc_points = 0;
  guardian = none;
  incentivization_fee_info = none;
  token_transfer_gas_limit = none;
}

unfoldable pub instantiate : Chain → InstantiateMsg → Result ContractError Store
unfolding with_fee_info addr_opt_validate check
instantiate chain msg = do
  checked ← map_err std (check chain msg.reward_token)
  config ← with_fee_info chain msg.incentivization_fee_info (fresh_config msg)
  owner ← map_err std (chain.addr_validate msg.owner)
  factory ← map_err std (chain.addr_validate msg.factory)
  guardian ← map_err std (addr_opt_validate chain msg.guardian)
  ok (record {
    config = record config { owner = owner; factory = factory; guardian = guardian };
    proposal = none;
    active_pools = [];
    blocked = λ a. false;
    pools = λ a. none;
    schedules = λ a info. [];
    finished = λ a. [];
    positions = λ a. [];
    orphaned_rewards = [];
    next_reply_id = first_dynamic_reply_id;
    pending = λ id. none;
  })

-- A call that sends nothing.
abbrev pub silent : Result ContractError Store → Result ContractError Outcome
silent result = result >>= λ store. ok (store, ([], []))

abbrev pub transfers_only :
    Result ContractError (Store × List Transfer) → Result ContractError Outcome
transfers_only result = result >>= λ x. ok (x.0, (x.1, []))

abbrev pub messages_only :
    Result ContractError (Store × List CosmosMsg) → Result ContractError Outcome
messages_only result = result >>= λ x. ok (x.0, ([], x.1))

module _ (m : Math) (chain : Chain) (registry : Registry) (factory : FactoryQueries)
    (order : Iteration) (from_utf8 : Text → Result StdError Text) where
  unfoldable pub execute : Env → MessageInfo → Store → ExecuteMsg → Result ContractError Outcome
  unfolding setup_pools claim deposit_coin withdraw set_tokens_per_second incentivize_many
      remove_reward_from_pool claim_orphaned_rewards update_config update_blocked_pool_tokens
      deactivate_pool deactivate_blocked_pools
  execute env info store (ExecuteMsg.setup_pools pools) =
      silent (setup_pools m chain registry factory order env info pools store)
  execute env info store (ExecuteMsg.claim_rewards lp_tokens) =
      claim m chain order env info lp_tokens store
  execute env info store (ExecuteMsg.deposit recipient) =
      deposit_coin m chain registry factory order env info recipient store
  execute env info store (ExecuteMsg.withdraw lp_token amount) =
      withdraw m chain order env info lp_token amount store
  execute env info store (ExecuteMsg.set_tokens_per_second amount) =
      silent (set_tokens_per_second m order env info amount store)
  execute env info store (ExecuteMsg.incentivize lp_token schedule) =
      messages_only
        (incentivize_many m chain registry factory order env info ((lp_token, schedule) ∷ []) store)
  execute env info store (ExecuteMsg.incentivize_many incentives) =
      messages_only (incentivize_many m chain registry factory order env info incentives store)
  execute env info store (ExecuteMsg.remove_reward_from_pool lp_token reward bypass receiver) =
      transfers_only
        (remove_reward_from_pool m chain order env info lp_token reward bypass receiver store)
  execute env info store (ExecuteMsg.claim_orphaned_rewards limit receiver) =
      transfers_only (claim_orphaned_rewards m from_utf8 chain info limit receiver store)
  execute env info store (ExecuteMsg.update_config controller guardian fee_info gas_limit) =
      silent (update_config chain info controller guardian fee_info gas_limit store)
  execute env info store (ExecuteMsg.update_blocked_tokenslist add_tokens remove_tokens) =
      silent
        (update_blocked_pool_tokens m chain registry order env info add_tokens remove_tokens store)
  execute env info store (ExecuteMsg.deactivate_pool lp_token) =
      silent (deactivate_pool m chain order env info lp_token store)
  execute env info store ExecuteMsg.deactivate_blocked_pools =
      silent (deactivate_blocked_pools m chain registry factory order env store)
  execute env info store (ExecuteMsg.propose_new_owner owner expires_in) = do
    proposal ← map_err std (propose_new_owner m chain info env owner expires_in store.config.owner)
    ok (record store { proposal = some proposal }, ([], []))
  execute env info store ExecuteMsg.drop_ownership_proposal = do
    proposal ← map_err std (drop_ownership_proposal info store.config.owner)
    ok (record store { proposal = proposal }, ([], []))
  execute env info store ExecuteMsg.claim_ownership = do
    owner ← map_err std (claim_ownership info env store.proposal)
    ok (
      record store { config = record (store.config) { owner = owner }; proposal = none },
      ([], []),
    )
