-- ===== src/Incentives/Served.antt =====
-- Each call of the funders, and each one that sends rewards back, leaves the stakes alone.
use astroport_core.Common.{
  ℕ, Bool, true, false, Option, List, [], ◌∷◌, ◌++◌, not, ◌==◌, length, if◌then◌else◌, sym, ap, ◌∙◌,
  Bool-cases, inl, inr, min,
}
use astroport_core.Cosmwasm.{
  Result, ok, Math, StdError, ◌>>=◌, or_err, map_err, not_found, generic_err, unwrap_or,
}
use astroport_core.Cosmwasm.Inversion.{or_err-some}
use astroport_core.Cosmwasm.Outcome.{Gives, bind-Gives, of-Gives, fail_if-Gives}
use astroport_core.Asset.{Text, AssetInfo, equal, text_eq, all_unique, Chain, Env, MessageInfo}
use astroport_core.Texts.Dict.{Dict, remove}
use astroport_core.Incentives.Types.{std, unauthorized, overflow_error, no_orphaned_rewards}
use astroport_core.Incentives.Accrual.{update_rewards}
use astroport_core.Incentives.Schedules.{deregister_reward}
use astroport_core.Incentives.Storage.{
  Store, Iteration, Transfer, save, determine_asset_info, remove_reward_from_pool,
  register_pending_transfer,
}
use astroport_core.Incentives.Emissions.{set_each, disable_each}
use astroport_core.Incentives.Blocklist.{
  Registry, ActivePool, with_assets, unblock, block, still_active, is_owner_or,
  update_blocked_pool_tokens,
}
use astroport_core.Incentives.Orphans.{
  first_entries, max_orphaned_reward_limit, from_key_to_asset_info, send_orphans,
  claim_orphaned_rewards,
}
use astroport_core.Incentives.Kept.{total_of, register-SameStakes, SameStakes}
use astroport_core.Incentives.Untouched.{
  KeepsStakes, keeps_refl, keeps_trans, resave_keeps, updated_total, set_each_keeps,
  disable_each_keeps,
}
use astroport_core.Incentives.Administered.{deregister-total_lp}

pub Keeps_of_Same : (s t : Store) → SameStakes s t → KeepsStakes s t
Keeps_of_Same s t same = (same.0, λ a. ap (λ p. total_of (p a)) same.1)

module _ (m : Math) (chain : Chain) (registry : Registry) (order : Iteration) (env : Env)
    (info : MessageInfo) (s : Store) where
  pub update_blocked_pool_tokens_keeps :
      (add_tokens remove_tokens : List AssetInfo)
      → Gives
          (KeepsStakes s)
          (update_blocked_pool_tokens m chain registry order env info add_tokens remove_tokens s)
  unfolding update_blocked_pool_tokens
  update_blocked_pool_tokens_keeps [] remove_tokens =
      fail_if-Gives _ (not (is_owner_or info.sender s.config.owner s.config.guardian)) unauthorized
        _
        λ _.
          fail_if-Gives _ (not (all_unique (remove_tokens ++ [])))
            (std (generic_err "Duplicated tokens found")) _
            λ _. bind-Gives _ (unblock remove_tokens s.blocked) _ λ blocked _. keeps_refl s
  update_blocked_pool_tokens_keeps (a ∷ rest) remove_tokens =
      fail_if-Gives _ (not (is_owner_or info.sender s.config.owner s.config.guardian)) unauthorized
        _
        λ _.
          fail_if-Gives _ (not (all_unique (remove_tokens ++ a ∷ rest)))
            (std (generic_err "Duplicated tokens found")) _
            λ _. bind-Gives _ (unblock remove_tokens s.blocked) _ λ blocked _.
              bind-Gives _ (map_err std (with_assets chain registry s.active_pools)) _
                λ active_pools _.
                  bind-Gives _ (block s.config.reward_token active_pools (a ∷ rest) blocked) _
                    λ x _. disabled x.0 active_pools x.1
    where
      disabled :
          (blocked : AssetInfo → Bool) (active_pools : List ActivePool)
          (to_disable : List (AssetInfo × ℕ))
          → Gives (KeepsStakes s) (elim to_disable [
            | [] ↦ ok (record s { blocked = blocked })
            | x ∷ xs ↦ do
              (disabled, reduced) ← disable_each m order env.seconds (x ∷ xs) 0 s
              total ← or_err overflow_error (m.checked_sub s.config.total_alloc_points reduced)
              let config' = record (s.config) { total_alloc_points = total }
              let left = still_active (x ∷ xs) active_pools
              updated ← set_each m order env.seconds config' left disabled
              ok (record updated { config = config'; active_pools = left; blocked = blocked })
          ])
      disabled blocked active_pools [] = keeps_refl s
      disabled blocked active_pools (x ∷ xs) =
          bind-Gives _ (disable_each m order env.seconds (x ∷ xs) 0 s) _ λ y first.
            bind-Gives _ (or_err overflow_error (m.checked_sub s.config.total_alloc_points y.1)) _
              λ total _.
                let config' = record (s.config) { total_alloc_points = total } in
                let left = still_active (x ∷ xs) active_pools in
                bind-Gives _ (set_each m order env.seconds config' left y.0) _ λ u sets.
                  keeps_trans s y.0 u
                    (of-Gives (λ y. KeepsStakes s y.0) _ y
                      (disable_each_keeps m order env.seconds (x ∷ xs) 0 s) first)
                    (of-Gives (KeepsStakes y.0) _ u
                      (set_each_keeps m order env.seconds config' left y.0) sets)

  pub remove_reward_from_pool_keeps :
      (lp_token reward : Text) (bypass : Bool) (receiver : Text)
      → Gives
          (λ x. KeepsStakes s x.0)
          (remove_reward_from_pool m chain order env info lp_token reward bypass receiver s)
  unfolding remove_reward_from_pool
  remove_reward_from_pool_keeps lp_token reward bypass receiver =
      fail_if-Gives _ (not (text_eq info.sender s.config.owner)) unauthorized _ λ _.
        bind-Gives _ (map_err std (determine_asset_info chain lp_token)) _ λ lp _.
          bind-Gives _ (map_err std (determine_asset_info chain reward)) _ λ asset _.
            bind-Gives _ (or_err (std not_found) (s.pools lp)) _ λ pool there.
              bind-Gives _ (map_err std (update_rewards m env.seconds (s.schedules lp) pool)) _
                λ updated is.
                  bind-Gives _ (deregister_reward m (s.schedules lp) updated asset bypass) _
                    λ x takes.
                      let t = record s {
                        schedules = λ a. if equal a lp then x.1.0 else s.schedules a;
                      } in
                      bind-Gives _ (map_err std (save m order lp x.0 t)) _ λ u saves.
                        sends asset x.1.1 u
                          (of-Gives (KeepsStakes t) _ u
                            (resave_keeps m order env.seconds lp x.0 t (
                              deregister-total_lp m (s.schedules lp) updated asset bypass x takes
                              ∙ updated_total m order env.seconds (s.schedules lp) pool updated is
                              ∙ sym (ap total_of (or_err-some _ _ pool there))))
                            saves)
                          (x.1.1 == 0)
    where
      sends :
          (asset : AssetInfo) (unclaimed : ℕ) (u : Store)
          → KeepsStakes s u
          → (b : Bool)
          → Gives {A = Store × List Transfer}
              (λ x. KeepsStakes s x.0)
              (elim b [
                | true ↦ ok (u, [])
                | false ↦ do
                  recipient ← map_err std (chain.addr_validate receiver)
                  (reply_id, v) ← register_pending_transfer m asset unclaimed u
                  ok (
                    v,
                    record {
                      reply_id = reply_id;
                      asset = record { info = asset; amount = unclaimed };
                      recipient = receiver;
                      gas_limit = s.config.token_transfer_gas_limit;
                    }
                        ∷ [],
                  )
              ])
      sends asset unclaimed u keeps true = keeps
      sends asset unclaimed u keeps false =
          bind-Gives _ (map_err std (chain.addr_validate receiver)) _ λ recipient _.
            bind-Gives _ (register_pending_transfer m asset unclaimed u) _ λ y made.
              keeps_trans s u y.1 keeps (
                Keeps_of_Same u y.1 (
                  of-Gives (λ y. SameStakes u y.1) _ y (register-SameStakes m asset unclaimed u)
                    made))

module _ (m : Math) (from_utf8 : Text → Result StdError Text) where
  send_orphans_keeps :
      (d : Dict ℕ) (s : Store) → Gives (λ x. KeepsStakes s x.0) (send_orphans m from_utf8 d s)
  unfolding send_orphans
  send_orphans_keeps [] s = keeps_refl s
  send_orphans_keeps ((key, amount) ∷ rest) s = elim (Bool-cases (amount == 0)) [
    | inl e ↦ rw (e, send_orphans) (send_orphans_keeps rest s)
    | inr e ↦
        rw (e, send_orphans)
          (let t = record s { orphaned_rewards = remove key s.orphaned_rewards } in
            bind-Gives _ (map_err std (from_key_to_asset_info from_utf8 key)) _ λ asset _.
              bind-Gives _ (register_pending_transfer m asset amount t) _ λ x made.
                bind-Gives _ (send_orphans m from_utf8 rest x.1) _ λ y more.
                  keeps_trans s x.1 y.0
                    (Keeps_of_Same s x.1 (
                      of-Gives (λ x. SameStakes t x.1) _ x (register-SameStakes m asset amount t)
                        made))
                    (of-Gives (λ y. KeepsStakes x.1 y.0) _ y (send_orphans_keeps rest x.1) more))
  ]

  pub claim_orphaned_rewards_keeps :
      (chain : Chain) (info : MessageInfo) (limit : Option ℕ) (receiver : Text) (s : Store)
      → Gives
          (λ x. KeepsStakes s x.0)
          (claim_orphaned_rewards m from_utf8 chain info limit receiver s)
  unfolding claim_orphaned_rewards
  claim_orphaned_rewards_keeps chain info limit receiver s =
      let entries =
        first_entries (min (unwrap_or limit max_orphaned_reward_limit) max_orphaned_reward_limit)
          s.orphaned_rewards in
      fail_if-Gives _ (not (text_eq info.sender s.config.owner)) unauthorized _ λ _.
        bind-Gives _ (map_err std (chain.addr_validate receiver)) _ λ supplied _.
          fail_if-Gives _ (length entries == 0) no_orphaned_rewards _
            λ _. send_orphans_keeps entries s
