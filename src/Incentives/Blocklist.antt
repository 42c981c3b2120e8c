-- ===== src/Incentives/Blocklist.antt =====
-- The rate of the internal rewards and the list of blocked tokens
-- (contracts/tokenomics/incentives/src/execute.rs).
use astroport_core.Common.{
  ℕ, Bool, true, false, Option, none, some, List, [], ◌∷◌, ◌++◌, ◌&&◌, ◌||◌, not, ◌==◌,
  if◌then◌else◌,
}
use astroport_core.Cosmwasm.{
  Result, ok, StdError, not_found, generic_err, Math, ◌>>=◌, ◌>>◌, or_err, or_panic, fail_if,
  map_err,
}
use astroport_core.Asset.{
  Addr, Text, AssetInfo, token, native_token, equal, contains, text_eq, all_unique, Chain,
  MessageInfo, Env, PairInfo,
}
use astroport_core.Incentives.Types.{ContractError, std, unauthorized, overflow_error, PoolInfo}
use astroport_core.Incentives.Storage.{Config, Store, Iteration, save}
use astroport_core.Incentives.Accrual.{update_rewards}
use astroport_core.Incentives.Emissions.{set_each, disable_each, set_internal_rewards}

-- The queries of token contracts and of pairs.
pub record Registry : Type 0 where
  pub minter : Text → Result StdError Addr
  pub pair : Addr → Result StdError PairInfo

unfoldable pub starts_with : Text → Text → Bool
starts_with [] text = true
starts_with (x ∷ xs) [] = false
starts_with (x ∷ xs) (y ∷ ys) = x == y && starts_with xs ys

unfoldable pub ends_with : Text → Text → Bool
ends_with end [] = text_eq end []
ends_with end (y ∷ ys) = text_eq end (y ∷ ys) || ends_with end ys

-- The text up to the next slash.
unfoldable pub before_slash : Text → Text
before_slash [] = []
before_slash (x ∷ xs) = let rest = before_slash xs in if x == b'/' then [] else x ∷ rest

-- The second part of `split('/')`.
unfoldable pub second_part : Text → Option Text
unfolding before_slash
second_part [] = none
second_part (x ∷ xs) =
    let later = second_part xs in if x == b'/' then some (before_slash xs) else later

abbrev pub lp_prefix : Text
lp_prefix = b'f' ∷ b'a' ∷ b'c' ∷ b't' ∷ b'o' ∷ b'r' ∷ b'y' ∷ []

-- LP_SUBDENOM
abbrev pub lp_subdenom : Text
lp_subdenom =
    b'a' ∷ b's' ∷ b't' ∷ b'r' ∷ b'o' ∷ b'p' ∷ b'o' ∷ b'r' ∷ b't' ∷ b'/' ∷ b's' ∷ b'h' ∷ b'a' ∷ b'r'
    ∷ b'e' ∷ []

unfoldable pub get_pair_from_denom : Chain → Text → Result StdError Addr
unfolding starts_with ends_with second_part
get_pair_from_denom chain denom = do
  fail_if (not (starts_with lp_prefix denom && ends_with lp_subdenom denom))
      (generic_err "LP token doesn't follow token factory format")
  lp_minter ← or_panic (second_part denom)
  chain.addr_validate lp_minter

unfoldable pub query_pair_info : Chain → Registry → AssetInfo → Result StdError PairInfo
unfolding get_pair_from_denom
query_pair_info chain registry (token contract_addr) = do
  minter ← registry.minter contract_addr
  registry.pair minter
query_pair_info chain registry (native_token denom) = do
  lp_minter ← get_pair_from_denom chain denom
  registry.pair lp_minter

-- An active pool with the assets of its pair.
pub record ActivePool : Type 0 where
  pub lp_asset : AssetInfo
  pub asset_infos : List AssetInfo
  pub alloc_points : ℕ

unfoldable pub with_assets :
    Chain → Registry → List (AssetInfo × ℕ) → Result StdError (List ActivePool)
unfolding query_pair_info
with_assets chain registry [] = ok []
with_assets chain registry ((lp, n) ∷ rest) = do
  pair_info ← query_pair_info chain registry lp
  more ← with_assets chain registry rest
  ok (record { lp_asset = lp; asset_infos = pair_info.asset_infos; alloc_points = n } ∷ more)

-- The pools that hold a token.
unfoldable pub holding : AssetInfo → List ActivePool → List (AssetInfo × ℕ)
holding info [] = []
holding info (p ∷ rest) =
    let more = holding info rest in
    if contains p.asset_infos info then (p.lp_asset, p.alloc_points) ∷ more else more

-- The tokens that are taken off the list.
unfoldable pub unblock :
    List AssetInfo → (AssetInfo → Bool) → Result ContractError (AssetInfo → Bool)
unblock [] blocked = ok blocked
unblock (a ∷ rest) blocked = do
  fail_if (not (blocked a)) (std (generic_err "Token wasn't found in the blocked list"))
  unblock rest λ b. if equal b a then false else blocked b

-- The loop over the tokens to block: the list, and the pools to disable.
unfoldable pub block :
    AssetInfo
    → List ActivePool
    → List AssetInfo
    → (AssetInfo → Bool)
    → Result ContractError ((AssetInfo → Bool) × List (AssetInfo × ℕ))
unfolding holding
block reward_token active_pools [] blocked = ok (blocked, [])
block reward_token active_pools (a ∷ rest) blocked = do
  fail_if (blocked a) (std (generic_err "Token is already in the blocked list"))
  fail_if (equal a reward_token)
      (std (generic_err "Blocking the internal reward token is prohibited"))
  (blocked', to_disable) ←
      block reward_token active_pools rest λ b. if equal b a then true else blocked b
  ok (blocked', holding a active_pools ++ to_disable)

unfoldable pub is_listed : AssetInfo → List (AssetInfo × ℕ) → Bool
is_listed lp [] = false
is_listed lp ((other, n) ∷ rest) = equal other lp || is_listed lp rest

-- The active pools that are not disabled.
unfoldable pub still_active : List (AssetInfo × ℕ) → List ActivePool → List (AssetInfo × ℕ)
unfolding is_listed
still_active to_disable [] = []
still_active to_disable (p ∷ rest) =
    let more = still_active to_disable rest in
    if is_listed p.lp_asset to_disable then more else (p.lp_asset, p.alloc_points) ∷ more

unfoldable pub is_owner_or : Text → Addr → Option Addr → Bool
is_owner_or sender owner none = text_eq sender owner
is_owner_or sender owner (some guardian) = text_eq sender owner || text_eq sender guardian

module _ (m : Math) (chain : Chain) (registry : Registry) (order : Iteration) where
  unfoldable pub update_blocked_pool_tokens :
      Env → MessageInfo → List AssetInfo → List AssetInfo → Store → Result ContractError Store
  unfolding with_assets unblock block still_active is_owner_or set_each disable_each
  update_blocked_pool_tokens env info add_tokens remove_tokens store = do
    let config = store.config
    fail_if (not (is_owner_or info.sender config.owner config.guardian)) unauthorized
    fail_if (not (all_unique (remove_tokens ++ add_tokens)))
        (std (generic_err "Duplicated tokens found"))
    blocked ← unblock remove_tokens store.blocked
    elim add_tokens [
      | [] ↦ ok (record store { blocked = blocked })
      | first ∷ rest ↦ do
        active_pools ← map_err std (with_assets chain registry store.active_pools)
        (blocked', to_disable) ← block config.reward_token active_pools (first ∷ rest) blocked
        elim to_disable [
          | [] ↦ ok (record store { blocked = blocked' })
          | x ∷ xs ↦ do
            (disabled, reduced) ← disable_each m order env.seconds (x ∷ xs) 0 store
            total ← or_err overflow_error (m.checked_sub config.total_alloc_points reduced)
            let config' = record config { total_alloc_points = total }
            let left = still_active (x ∷ xs) active_pools
            updated ← set_each m order env.seconds config' left disabled
            ok (record updated { config = config'; active_pools = left; blocked = blocked' })
        ]
    ]

-- The pools are loaded and updated at the old rate first, then each one is saved with the new rate.
module _ (m : Math) (order : Iteration) (now : ℕ) where
  unfoldable pub load_each :
      Store → List (AssetInfo × ℕ) → Result ContractError (List (PoolInfo × (AssetInfo × ℕ)))
  load_each store [] = ok []
  load_each store ((lp, n) ∷ rest) = do
    pool ← or_err (std not_found) (store.pools lp)
    updated ← map_err std (update_rewards m now (store.schedules lp) pool)
    more ← load_each store rest
    ok ((updated, (lp, n)) ∷ more)

  unfoldable pub save_each_pool :
      Config → List (PoolInfo × (AssetInfo × ℕ)) → Store → Result ContractError Store
  unfolding set_internal_rewards save
  save_each_pool config [] store = ok store
  save_each_pool config ((pool, (lp, n)) ∷ rest) store = do
    changed ← set_internal_rewards m config n pool
    store' ← map_err std (save m order lp changed store)
    save_each_pool config rest store'

module _ (m : Math) (order : Iteration) where
  unfoldable pub set_tokens_per_second : Env → MessageInfo → ℕ → Store → Result ContractError Store
  unfolding load_each save_each_pool
  set_tokens_per_second env info amount store = do
    let config = store.config
    fail_if (not (text_eq info.sender config.owner)) unauthorized
    pools ← load_each m order env.seconds store store.active_pools
    let config' = record config { reward_per_second = amount }
    updated ← save_each_pool m order env.seconds config' pools store
    ok (record updated { config = config' })
