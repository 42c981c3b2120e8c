-- ===== src/Incentives/Blocked.antt =====
-- What blocking tokens takes off the sum of the allocation points
-- (contracts/tokenomics/incentives/src/execute.rs).
use astroport_core.Common.{
  ℕ, Bool, true, List, [], ◌∷◌, ◌++◌, ◌∙◌, ◌+◌, ◌≡◌, refl, sym, ap, arith, not, if◌then◌else◌,
}
use astroport_core.Cosmwasm.{
  ok, sub?, generic_err, Math, exact, IsDocumented, eq-exact, ◌>>=◌, or_err, or_panic, fail_if,
  map_err,
}
use astroport_core.Cosmwasm.Inversion.{fits-ok, ok-inj, map_err-ok, or_err-some, or_panic_bind}
use astroport_core.Cosmwasm.Outcome.{Gives, Gives-map, bind-Gives, of-Gives}
use astroport_core.Asset.{AssetInfo, Chain, Env, MessageInfo, equal, all_unique}
use astroport_core.Incentives.Types.{ContractError, std, overflow_error, unauthorized}
use astroport_core.Incentives.Storage.{Store, Iteration}
use astroport_core.Incentives.Emissions.{
  change_pool, set_each, disable_internal_rewards, disable_each,
}
use astroport_core.Incentives.Blocklist.{
  Registry, ActivePool, with_assets, holding, block, update_blocked_pool_tokens, unblock,
  still_active, is_owner_or,
}
use astroport_core.Incentives.Points.{sum_points, sub?-some}

-- The points of each pool once for each of the tokens that its pair holds.
unfoldable pub points_taken : List AssetInfo → List ActivePool → ℕ
unfolding sum_points holding
points_taken [] active_pools = 0
points_taken (a ∷ rest) active_pools =
    sum_points (holding a active_pools) + points_taken rest active_pools

sum_points-append : (l k : List (AssetInfo × ℕ)) → sum_points (l ++ k) ≡ sum_points l + sum_points k
unfolding sum_points
sum_points-append [] k = omega arith
sum_points-append ((lp, n) ∷ l) k = omega (arith, sum_points-append l k)

block-points_taken :
    (reward_token : AssetInfo) (active_pools : List ActivePool) (tokens : List AssetInfo)
    (blocked : AssetInfo → Bool)
    → Gives
        (λ x. sum_points x.1 ≡ points_taken tokens active_pools)
        (block reward_token active_pools tokens blocked)
unfolding block points_taken sum_points
block-points_taken reward_token active_pools [] blocked = refl
block-points_taken reward_token active_pools (a ∷ rest) blocked =
    bind-Gives _ (fail_if (blocked a) (std (generic_err "Token is already in the blocked list"))) _
      λ _ _.
        bind-Gives _
          (fail_if (equal a reward_token)
            (std (generic_err "Blocking the internal reward token is prohibited")))
          _
          λ _ _.
            bind-Gives _
              (block reward_token active_pools rest (λ b. if equal b a then true else blocked b)) _
              λ x made.
                sum_points-append (holding a active_pools) x.1
                ∙ ap (λ n. sum_points (holding a active_pools) + n)
                    (of-Gives (λ x. sum_points x.1 ≡ points_taken rest active_pools) _ x
                      (block-points_taken reward_token active_pools rest
                        (λ b. if equal b a then true else blocked b))
                      made)

disable_each-sum_points :
    (order : Iteration) (now : ℕ) (l : List (AssetInfo × ℕ)) (reduced : ℕ) (store : Store)
    → Gives (λ x. x.1 ≡ reduced + sum_points l) (disable_each exact order now l reduced store)
unfolding disable_each sum_points
disable_each-sum_points order now [] reduced store = omega arith
disable_each-sum_points order now ((lp, n) ∷ l) reduced store =
    bind-Gives _ (change_pool exact order now lp (λ pool. ok (disable_internal_rewards pool)) store)
      _
      λ store' _. bind-Gives _ (or_panic (exact.checked_add 128 reduced n)) _ λ reduced' added.
        let (_, same) =
          fits-ok ok 128 (reduced + n)
            (or_panic_bind {E = ContractError} (exact.checked_add 128 reduced n) ∙ added) in
        let value : reduced + n ≡ reduced' = ok-inj same in
        let more = disable_each-sum_points order now l reduced' store' in
        Gives-map {Q = λ x. x.1 ≡ reduced + sum_points ((lp, n) ∷ l)}
          (λ x is. omega (arith, is, value)) _ more

-- The points that a call of the block list takes off the sum.
abbrev TookOff : Store → ℕ → Store → Type 0
TookOff store n store' = store'.config.total_alloc_points + n ≡ store.config.total_alloc_points

module _ (order : Iteration) (now : ℕ) (store : Store) (active_pools : List ActivePool)
    (blocked : AssetInfo → Bool) where
  disable_listed :
      (n : ℕ) (to_disable : List (AssetInfo × ℕ))
      → sum_points to_disable ≡ n
      → Gives (TookOff store n) (elim to_disable [
        | [] ↦ ok (record store { blocked = blocked })
        | x ∷ xs ↦ do
          (disabled, reduced) ← disable_each exact order now (x ∷ xs) 0 store
          total ← or_err overflow_error (exact.checked_sub store.config.total_alloc_points reduced)
          let config' = record (store.config) { total_alloc_points = total }
          let left = still_active (x ∷ xs) active_pools
          updated ← set_each exact order now config' left disabled
          ok (record updated { config = config'; active_pools = left; blocked = blocked })
      ])
  unfolding sum_points
  disable_listed n [] sum = omega arith
  disable_listed n (x ∷ xs) sum =
      bind-Gives _ (disable_each exact order now (x ∷ xs) 0 store) _ λ all made.
        bind-Gives _ (or_err overflow_error (sub? store.config.total_alloc_points all.1)) _
          λ total left.
            bind-Gives _
              (set_each exact order now (record (store.config) { total_alloc_points = total })
                (still_active (x ∷ xs) active_pools) all.0)
              _
              λ updated _.
                let reduces =
                  of-Gives (λ y. y.1 ≡ 0 + sum_points (x ∷ xs)) _ all
                    (disable_each-sum_points order now (x ∷ xs) 0 store) made in
                let value =
                  sub?-some store.config.total_alloc_points all.1 total
                    (or_err-some _ _ total left) in
                omega arith

update_blocked-TookOff :
    (chain : Chain) (registry : Registry) (order : Iteration) (env : Env) (info : MessageInfo)
    (add_tokens remove_tokens : List AssetInfo) (store : Store) (active_pools : List ActivePool)
    → with_assets chain registry store.active_pools ≡ ok active_pools
    → Gives (TookOff store (points_taken add_tokens active_pools)) (
        update_blocked_pool_tokens exact chain registry order env info add_tokens remove_tokens
          store)
unfolding update_blocked_pool_tokens points_taken
update_blocked-TookOff chain registry order env info [] remove_tokens store active_pools known =
    bind-Gives (TookOff store 0)
      (fail_if (not (is_owner_or info.sender store.config.owner store.config.guardian))
        unauthorized)
      _
      λ _ _.
        bind-Gives (TookOff store 0)
          (fail_if (not (all_unique (remove_tokens ++ [])))
            (std (generic_err "Duplicated tokens found")))
          _
          λ _ _.
            bind-Gives (TookOff store 0) (unblock remove_tokens store.blocked) _
              λ blocked _. (omega arith)
update_blocked-TookOff chain registry order env info (a ∷ rest) remove_tokens store active_pools
      known =
    let P = TookOff store (points_taken (a ∷ rest) active_pools) in
    bind-Gives P
      (fail_if (not (is_owner_or info.sender store.config.owner store.config.guardian))
        unauthorized)
      _
      λ _ _.
        bind-Gives P
          (fail_if (not (all_unique (remove_tokens ++ a ∷ rest)))
            (std (generic_err "Duplicated tokens found")))
          _
          λ _ _. bind-Gives P (unblock remove_tokens store.blocked) _ λ blocked _.
            bind-Gives P (map_err std (with_assets chain registry store.active_pools)) _
              λ pools got.
                bind-Gives P (block store.config.reward_token pools (a ∷ rest) blocked) _ λ x made.
                  let same : active_pools ≡ pools = ok-inj (sym known ∙ map_err-ok std _ got) in
                  let sum : sum_points x.1 ≡ points_taken (a ∷ rest) active_pools =
                    of-Gives (λ y. sum_points y.1 ≡ points_taken (a ∷ rest) pools) _ x
                      (block-points_taken store.config.reward_token pools (a ∷ rest) blocked) made
                    ∙ ap (points_taken (a ∷ rest)) (sym same) in
                  disable_listed order env.seconds store pools x.0
                    (points_taken (a ∷ rest) active_pools) x.1 sum

-- Blocking tokens takes the points of an active pool off the sum in the config once for each of the
-- tokens that the pool's pair holds, and not once: when one call blocks both tokens of a pair, its pool
-- is counted twice.
pub update_blocked_pool_tokens-points_taken :
    {m : Math}
    → IsDocumented m
    → (chain : Chain) (registry : Registry) (order : Iteration) (env : Env) (info : MessageInfo)
      (add_tokens remove_tokens : List AssetInfo) (store store' : Store)
      (active_pools : List ActivePool)
    → with_assets chain registry store.active_pools ≡ ok active_pools
    → update_blocked_pool_tokens m chain registry order env info add_tokens remove_tokens store
      ≡ ok store'
    → store'.config.total_alloc_points + points_taken add_tokens active_pools
      ≡ store.config.total_alloc_points
update_blocked_pool_tokens-points_taken d =
    rw (eq-exact d)
      λ chain registry order env info add_tokens remove_tokens store store' active_pools known run.
        of-Gives (TookOff store (points_taken add_tokens active_pools)) _ store'
          (update_blocked-TookOff chain registry order env info add_tokens remove_tokens store
            active_pools known)
          run
