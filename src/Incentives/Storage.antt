-- ===== src/Incentives/Storage.antt =====
-- The storage of the incentives, saving a pool, and the transfers of rewards
-- (contracts/tokenomics/incentives/src/state.rs, reply.rs, utils.rs).
use astroport_core.Common.{
  ℕ, Bool, true, false, Option, none, some, List, [], ◌∷◌, ◌++◌, ◌&&◌, not, leb, ltb, ◌==◌, ◌/◌,
  if◌then◌else◌,
}
use astroport_core.Cosmwasm.{
  Result, ok, err, panic, StdError, conversion_overflow, generic_err, not_found, Math, ◌>>=◌, ◌>>◌,
  or_err, or_panic, fail_if, map_err, fractional, unwrap_or,
}
use astroport_core.Asset.{
  Addr, Text, Asset, AssetInfo, token, native_token, equal, text_eq, Chain, MessageInfo, Env, Coin,
}
use astroport_core.Ownership.Proposals.{OwnershipProposal}
use astroport_core.Texts.Dict.{Dict, lookup, insert}
use astroport_core.Asset.Denom.{validate_native_denom}
use astroport_core.Incentives.Types.{
  ContractError, std, unauthorized, failed_to_parse_reply, RewardType, asset_info, PoolInfo,
  UserInfo, Schedules,
}
use astroport_core.Incentives.Accrual.{update_rewards}
use astroport_core.Incentives.Schedules.{deregister_reward}

-- A transfer that waits for its reply.
pub record Pending : Type 0 where
  pub reward_key : AssetInfo
  pub pending_amount : ℕ

pub record IncentivizationFeeInfo : Type 0 where
  pub fee_receiver : Addr
  pub fee : Coin

pub record Config : Type 0 where
  pub owner : Addr
  pub factory : Addr
  pub generator_controller : Option Addr
  pub reward_token : AssetInfo
  pub reward_per_second : ℕ
  pub total_alloc_points : ℕ
  pub guardian : Option Addr
  pub incentivization_fee_info : Option IncentivizationFeeInfo
  pub token_transfer_gas_limit : Option ℕ

-- CONFIG, OWNERSHIP_PROPOSAL, ACTIVE_POOLS with their allocation points, BLOCKED_TOKENS; POOLS, EXTERNAL_REWARD_SCHEDULES, FINISHED_REWARD_INDEXES by pool
-- and time, USER_INFO by pool and user, ORPHANED_REWARDS, NEXT_REPLY_ID and PENDING_REWARD_TRANSFERS. The key of an asset tells it apart from all others, so
-- that the maps but ORPHANED_REWARDS, which is read in the order of its keys, are by asset.
pub record Store : Type 0 where
  pub config : Config
  pub proposal : Option OwnershipProposal
  pub active_pools : List (AssetInfo × ℕ)
  pub blocked : AssetInfo → Bool
  pub pools : AssetInfo → Option PoolInfo
  pub schedules : AssetInfo → Schedules
  pub finished : AssetInfo → List (ℕ × List (AssetInfo × ℕ))
  pub positions : AssetInfo → List (Addr × UserInfo)
  pub orphaned_rewards : Dict ℕ
  pub next_reply_id : ℕ
  pub pending : ℕ → Option Pending

-- The orders in which the two hash maps of a pool, and that of a position's finished rewards, are
-- iterated, which are not specified.
pub record Iteration : Type 0 where
  pub of_removed : List (RewardType × (ℕ × ℕ)) → List (RewardType × (ℕ × ℕ))
  pub of_orphaned : List (AssetInfo × ℕ) → List (AssetInfo × ℕ)
  pub of_groups : List (AssetInfo × List ℕ) → List (AssetInfo × List ℕ)

-- `asset_info_key`
unfoldable pub asset_info_key : AssetInfo → Text
asset_info_key (native_token denom) = 0 ∷ denom
asset_info_key (token contract_addr) = 1 ∷ contract_addr

-- An entry of ORPHANED_REWARDS, zero where there is none.
unfoldable pub orphaned_of : Store → AssetInfo → ℕ
unfolding lookup asset_info_key
orphaned_of store info = unwrap_or (lookup (asset_info_key info) store.orphaned_rewards) 0

unfoldable pub put_orphan : AssetInfo → ℕ → Store → Store
unfolding insert asset_info_key
put_orphan info total store = record store {
  orphaned_rewards = insert (asset_info_key info) total store.orphaned_rewards;
}

-- ORPHANED_REWARDS with a whole part added.
unfoldable pub add_orphan : Math → AssetInfo → ℕ → Store → Result StdError Store
unfolding orphaned_of put_orphan
add_orphan m info orphaned_amount store = do
  amount ← or_err conversion_overflow (m.try_into 128 (orphaned_amount / fractional))
  total ← or_panic (m.checked_add 128 (orphaned_of store info) amount)
  ok (put_orphan info total store)

unfoldable pub save_claims : Math → List (AssetInfo × ℕ) → Store → Result StdError Store
unfolding add_orphan
save_claims m [] store = ok store
save_claims m ((info, amount) ∷ rest) store = elim (amount == 0) [
  | true ↦ save_claims m rest store
  | false ↦ do store' ← add_orphan m info amount store; save_claims m rest store'
]

-- A group of finished indexes under its time, in place of what was there.
unfoldable pub put_finished :
    ℕ → List (AssetInfo × ℕ) → List (ℕ × List (AssetInfo × ℕ)) → List (ℕ × List (AssetInfo × ℕ))
put_finished ts group [] = (ts, group) ∷ []
put_finished ts group ((t, held) ∷ rest) =
    let later = put_finished ts group rest in
    if t == ts
    then (ts, group) ∷ rest
    else if ltb ts t
    then (ts, group) ∷ (t, held) ∷ rest
    else (t, held) ∷ later

unfoldable pub save_finished : AssetInfo → ℕ → List (AssetInfo × ℕ) → Store → Store
unfolding put_finished
save_finished lp ts [] store = store
save_finished lp ts (x ∷ group) store = record store {
  finished =
      λ a. if equal a lp then put_finished ts (x ∷ group) (store.finished a) else store.finished a;
}

-- The groups of entries one after another: `group` is the one without orphans that is being read.
unfoldable pub save_groups :
    Math
    → AssetInfo
    → ℕ
    → List (AssetInfo × ℕ)
    → List (RewardType × (ℕ × ℕ))
    → Store
    → Result StdError Store
unfolding save_finished add_orphan asset_info
save_groups m lp ts group [] store = ok (save_finished lp ts group store)
save_groups m lp ts group ((reward, (index, orphaned)) ∷ rest) store = elim (orphaned == 0) [
  | true ↦ save_groups m lp ts (group ++ (asset_info reward, index) ∷ []) rest store
  | false ↦ do
    store' ← add_orphan m (asset_info reward) orphaned (save_finished lp ts group store)
    save_groups m lp ts [] rest store'
]

-- `PoolInfo::save`: what is in memory only is not part of what is saved.
unfoldable pub save : Math → Iteration → AssetInfo → PoolInfo → Store → Result StdError Store
unfolding save_claims save_groups
save m order lp pool store = do
  store' ← save_claims m (order.of_orphaned pool.orphaned_rewards_to_claim) store
  store'' ← save_groups m lp pool.last_update_ts [] (order.of_removed pool.rewards_to_remove) store'
  ok (record store'' {
    pools = λ a.
        if equal a lp
        then some (record pool { rewards_to_remove = []; orphaned_rewards_to_claim = [] })
        else store''.pools a;
  })

-- A transfer of a reward, with the id of its reply.
pub record Transfer : Type 0 where
  pub reply_id : ℕ
  pub asset : Asset
  pub recipient : Addr
  pub gas_limit : Option ℕ

unfoldable pub register_pending_transfer :
    Math → AssetInfo → ℕ → Store → Result ContractError (ℕ × Store)
register_pending_transfer m reward amount store = do
  let next = store.next_reply_id
  bumped ← or_err (std (generic_err "reply id counter overflow")) (m.checked_add 64 next 1)
  ok (
    next,
    record store {
      next_reply_id = bumped;
      pending = λ id.
          if id == next
          then some (record { reward_key = reward; pending_amount = amount })
          else store.pending id;
    },
  )

-- FIRST_DYNAMIC_REPLY_ID, and POST_TRANSFER_REPLY_ID
abbrev pub first_dynamic_reply_id : ℕ
first_dynamic_reply_id = 1_000

abbrev pub post_transfer_reply_id : ℕ
post_transfer_reply_id = 1

-- The reply to a transfer, and whether the transfer went through.
unfoldable pub reply : Math → ℕ → Bool → Store → Result ContractError Store
unfolding orphaned_of put_orphan
reply m id success store = elim (leb first_dynamic_reply_id id) [
  | false ↦ do
    fail_if (not (id == post_transfer_reply_id && not success)) failed_to_parse_reply
    ok store
  | true ↦ elim (store.pending id) [
    | none ↦ ok store
    | some p ↦ do
      let collected = record store {
        pending = λ other. if other == id then none else store.pending other;
      }
      elim success [
        | true ↦ ok collected
        | false ↦ do
          total ← or_panic (m.checked_add 128 (orphaned_of store p.reward_key) p.pending_amount)
          ok (put_orphan p.reward_key total collected)
      ]
  ]
]

-- `determine_asset_info`
unfoldable pub determine_asset_info : Chain → Text → Result StdError AssetInfo
determine_asset_info chain name = elim (chain.addr_validate name) [
  | ok addr ↦ ok (token name)
  | panic ↦ panic
  | err e ↦ elim (validate_native_denom name) [
    | ok x ↦ ok (native_token name)
    | panic ↦ panic
    | err e' ↦ err (generic_err "Cannot determine asset info")
  ]
]

-- The whole handler; the answer is the storage with the transfer that it sends, if any.
unfoldable pub remove_reward_from_pool :
    Math
    → Chain
    → Iteration
    → Env
    → MessageInfo
    → Text
    → Text
    → Bool
    → Text
    → Store
    → Result ContractError (Store × List Transfer)
unfolding determine_asset_info save register_pending_transfer
remove_reward_from_pool m chain order env info lp_token reward bypass receiver store = do
  fail_if (not (text_eq info.sender store.config.owner)) unauthorized
  lp_asset ← map_err std (determine_asset_info chain lp_token)
  reward_asset ← map_err std (determine_asset_info chain reward)
  pool ← or_err (std not_found) (store.pools lp_asset)
  updated ← map_err std (update_rewards m env.seconds (store.schedules lp_asset) pool)
  (pool', (schedules', unclaimed)) ←
      deregister_reward m (store.schedules lp_asset) updated reward_asset bypass
  saved ← map_err std (
      save m order lp_asset pool' (record store {
        schedules = λ a. if equal a lp_asset then schedules' else store.schedules a;
      }))
  elim (unclaimed == 0) [
    | true ↦ ok (saved, [])
    | false ↦ do
      recipient ← map_err std (chain.addr_validate receiver)
      (reply_id, store') ← register_pending_transfer m reward_asset unclaimed saved
      ok (
        store',
        record {
          reply_id = reply_id;
          asset = record { info = reward_asset; amount = unclaimed };
          recipient = receiver;
          gas_limit = store.config.token_transfer_gas_limit;
        }
            ∷ [],
      )
  ]
