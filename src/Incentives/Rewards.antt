-- ===== src/Incentives/Rewards.antt =====
-- What a position has to claim, and its payment (contracts/tokenomics/incentives/src/state.rs,
-- `claim_finished_rewards`, and utils.rs, `claim_rewards`).
use astroport_core.Common.{
  ℕ, Bool, true, false, Option, List, [], ◌∷◌, ◌++◌, ◌==◌, if◌then◌else◌, map, ◌&&◌,
}
use astroport_core.Cosmwasm.{
  Result, ok, StdError, conversion_overflow, Math, ◌>>=◌, or_panic, or_err, map_err,
}
use astroport_core.Asset.{Addr, Asset, AssetInfo, equal}
use astroport_core.Incentives.Types.{
  ContractError, std, RewardType, is_external, asset_info, PoolInfo, UserInfo, noop,
}
use astroport_core.Incentives.Accrual.{update_rewards}
use astroport_core.Incentives.Positions.{
  finished_after, reset_user_index, calculate_rewards, update_and_sync_position,
}
use astroport_core.Incentives.Storage.{
  Config, Store, Iteration, Transfer, register_pending_transfer,
}

-- `into_group_map_by`: the indexes of each asset, in order.
unfoldable pub put_group : AssetInfo → ℕ → List (AssetInfo × List ℕ) → List (AssetInfo × List ℕ)
put_group info index [] = (info, index ∷ []) ∷ []
put_group info index ((other, indexes) ∷ rest) =
    let later = put_group info index rest in
    if equal other info then (other, indexes ++ index ∷ []) ∷ rest else (other, indexes) ∷ later

unfoldable pub groups_of :
    List (AssetInfo × List ℕ) → List (AssetInfo × ℕ) → List (AssetInfo × List ℕ)
unfolding put_group
groups_of groups [] = groups
groups_of groups ((info, index) ∷ rest) = groups_of (put_group info index groups) rest

-- The index of an external reward that the user last saw, by its asset.
unfoldable pub external_index : List (RewardType × ℕ) → AssetInfo → ℕ
unfolding is_external asset_info
external_index [] info = 0
external_index ((reward_type, index) ∷ rest) info =
    let later = external_index rest info in
    if is_external reward_type && equal (asset_info reward_type) info then index else later

module _ (m : Math) where
  -- What an index gives to an amount of LP tokens.
  unfoldable pub finished_amount : ℕ → ℕ → AssetInfo → Result StdError Asset
  finished_amount lp_tokens gain info = do
    reward ← or_panic (m.mul_decimal 256 lp_tokens gain)
    amount ← or_err conversion_overflow (m.try_into 128 reward)
    ok (record { info = info; amount = amount })

  unfoldable pub later_amounts : ℕ → AssetInfo → List ℕ → Result StdError (List Asset)
  unfolding finished_amount
  later_amounts lp_tokens info [] = ok []
  later_amounts lp_tokens info (index ∷ rest) = do
    asset ← finished_amount lp_tokens index info
    more ← later_amounts lp_tokens info rest
    ok (asset ∷ more)

  -- The user may have seen the first index of a group; the others start from zero.
  unfoldable pub group_amounts : UserInfo → AssetInfo → List ℕ → Result StdError (List Asset)
  unfolding finished_amount later_amounts external_index
  group_amounts user info [] = ok []
  group_amounts user info (index ∷ rest) = do
    gain ← or_panic (m.checked_sub index (external_index user.last_rewards_index info))
    asset ← finished_amount user.amount gain info
    more ← later_amounts user.amount info rest
    ok (asset ∷ more)

  unfoldable pub all_amounts : UserInfo → List (AssetInfo × List ℕ) → Result StdError (List Asset)
  unfolding group_amounts
  all_amounts user [] = ok []
  all_amounts user ((info, indexes) ∷ rest) = do
    assets ← group_amounts user info indexes
    more ← all_amounts user rest
    ok (assets ++ more)

  unfoldable pub claim_finished_rewards :
      Iteration
      → List (ℕ × List (AssetInfo × ℕ))
      → PoolInfo
      → UserInfo
      → Result StdError (List Asset)
  unfolding all_amounts groups_of finished_after asset_info
  claim_finished_rewards order finished pool user =
      let entries =
        finished_after user.last_claim_time finished
        ++ map (λ x. (asset_info x.0, x.1.0)) (order.of_removed pool.rewards_to_remove) in
      all_amounts user (order.of_groups (groups_of [] entries))

unfoldable pub not_zero : List Asset → List Asset
not_zero [] = []
not_zero (a ∷ rest) = let more = not_zero rest in if a.amount == 0 then more else a ∷ more

-- The rewards that a claim has gathered: the external ones, and the amount of the internal one.
abbrev pub Gathered : Type 0
Gathered = List Asset × ℕ

unfoldable pub gather : Math → List (Bool × Asset) → Gathered → Result ContractError Gathered
gather m [] gathered = ok gathered
gather m ((external, a) ∷ rest) (assets, protocol) = elim (a.amount == 0) [
  | true ↦ gather m rest (assets, protocol)
  | false ↦ elim external [
    | true ↦ gather m rest (assets ++ a ∷ [], protocol)
    | false ↦ do
      protocol' ← or_panic (m.checked_add 128 protocol a.amount)
      gather m rest (assets, protocol')
  ]
]

-- A pool with its LP token, and the position of the user in it.
abbrev pub Claim : Type 0
Claim = AssetInfo × (PoolInfo × UserInfo)

module _ (m : Math) (order : Iteration) (now : ℕ) (store : Store) where
  -- The body of the loop over the positions.
  unfoldable pub claim_position : Claim → Gathered → Result ContractError (Claim × Gathered)
  unfolding claim_finished_rewards not_zero gather reset_user_index
  claim_position (lp, (pool, user)) (assets, protocol) = do
    updated ← map_err std (update_rewards m now (store.schedules lp) pool)
    finished ← map_err std (claim_finished_rewards m order (store.finished lp) updated user)
    let reset = reset_user_index (store.finished lp) updated user
    due ← map_err std (calculate_rewards m updated.rewards reset)
    gathered ← gather m due (assets ++ not_zero finished, protocol)
    (user', pool') ← map_err std (update_and_sync_position m noop reset updated)
    ok ((lp, (pool', user')), gathered)

  unfoldable pub claim_positions :
      List Claim → Gathered → Result ContractError (List Claim × Gathered)
  unfolding claim_position
  claim_positions [] gathered = ok ([], gathered)
  claim_positions (claim ∷ rest) gathered = do
    (claim', gathered') ← claim_position claim gathered
    (rest', gathered'') ← claim_positions rest gathered'
    ok (claim' ∷ rest', gathered'')

-- `group_by` and the sums: neighbours of one asset are paid together.
unfoldable pub sum_group :
    Math → AssetInfo → ℕ → List Asset → Result ContractError (List (AssetInfo × ℕ))
sum_group m info amount [] = ok ((info, amount) ∷ [])
sum_group m info amount (a ∷ rest) = elim (equal info a.info) [
  | true ↦ do sum ← or_panic (m.checked_add 128 amount a.amount); sum_group m info sum rest
  | false ↦ do more ← sum_group m a.info a.amount rest; ok ((info, amount) ∷ more)
]

unfoldable pub aggregate : Math → List Asset → Result ContractError (List (AssetInfo × ℕ))
unfolding sum_group
aggregate m [] = ok []
aggregate m (a ∷ rest) = sum_group m a.info a.amount rest

-- A transfer for each amount, registered under its own reply id.
unfoldable pub send_each :
    Math
    → Addr
    → Option ℕ
    → List (AssetInfo × ℕ)
    → Store
    → Result ContractError (Store × List Transfer)
unfolding register_pending_transfer
send_each m user gas_limit [] store = ok (store, [])
send_each m user gas_limit ((info, amount) ∷ rest) store = do
  (reply_id, store') ← register_pending_transfer m info amount store
  (store'', transfers) ← send_each m user gas_limit rest store'
  ok (
    store'',
    record {
      reply_id = reply_id;
      asset = record { info = info; amount = amount };
      recipient = user;
      gas_limit = gas_limit;
    }
        ∷ transfers,
  )

-- The second half of `claim_rewards`: the transfers of what was gathered.
unfoldable pub pay_rewards :
    Math → Config → Addr → Gathered → Store → Result ContractError (Store × List Transfer)
unfolding aggregate send_each
pay_rewards m config user (assets, protocol) store = do
  aggregated ← aggregate m assets
  let due = if protocol == 0 then [] else (config.reward_token, protocol) ∷ []
  send_each m user config.token_transfer_gas_limit (aggregated ++ due) store
