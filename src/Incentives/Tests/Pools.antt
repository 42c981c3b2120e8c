-- ===== src/Incentives/Tests/Pools.antt =====
-- Concrete pools with allocation points (contracts/tokenomics/incentives), and the theorems at them.
use astroport_core.Common.{List, true, if◌then◌else◌, none, some, ℕ, ◌+◌, ◌*◌, ◌≡◌, refl, [], ◌∷◌}
use astroport_core.Cosmwasm.{
  Result, ok, err, panic, generic_err, exact, exact-IsDocumented, fractional,
}
use astroport_core.Asset.{
  Text, Addr, AssetInfo, token, native_token, Chain, Env, MessageInfo, PairInfo, xyk,
}
use astroport_core.Asset.Types.{equal, text_eq, contains}
use astroport_core.Asset.{all_unique}
use astroport_core.Incentives.Types.{ContractError, int, PoolInfo}
use astroport_core.Incentives.Accrual.{update_rewards}
use astroport_core.Incentives.Storage.{Store, determine_asset_info}
use astroport_core.Incentives.Emissions.{deactivate_pool}
use astroport_core.Incentives.Blocklist.{
  is_owner_or, Registry, ActivePool, update_blocked_pool_tokens,
}
use astroport_core.Incentives.Points.{IsBalanced, sum_points, deactivate_pool-IsBalanced}
use astroport_core.Incentives.Activation.{FactoryQueries, setup_pools}
use astroport_core.Incentives.Chosen.{HasPoints, setup_pools-IsBalanced}
use astroport_core.Incentives.Blocked.{points_taken, update_blocked_pool_tokens-points_taken}
use astroport_core.Incentives.Tests.{luna, pool, in_order, storage}

-- Two active pools, of which the first holds both of the tokens that are to be blocked.
abbrev lp_1 : Text
lp_1 = b'1' ∷ []

abbrev lp_2 : Text
lp_2 = b'2' ∷ []

abbrev osmo : AssetInfo
osmo = native_token (b'o' ∷ [])

abbrev atom : AssetInfo
atom = native_token (b'a' ∷ [])

abbrev pub chain : Chain
chain = record {
  addr_validate = ok;
  bank_balance = λ account denom. ok (record { denom = denom; coin_amount = 0 });
  cw20_balance = λ contract account. ok 0;
  bank_supply = λ denom. ok (record { denom = denom; coin_amount = 0 });
  fee_info = λ address kind. err (generic_err "");
  factory_config = λ address. err (generic_err "");
  tracker_config = λ address. err (generic_err "");
  must_pay = λ info denom. none;
  one_coin = λ info. none;
}

abbrev pair_of : Addr → PairInfo
pair_of a = record {
  asset_infos = if text_eq a lp_1 then osmo ∷ atom ∷ [] else luna ∷ [];
  contract_addr = a;
  liquidity_token = a;
  pair_type = xyk;
}

abbrev registry : Registry
registry = record { minter = ok; pair = λ a. ok (pair_of a) }

abbrev env : Env
env = record { time = 5_000; seconds = 1_000; height = 1; self = b'i' ∷ [] }

abbrev by_owner : MessageInfo
by_owner = record { sender = []; funds = [] }

abbrev emitting : ℕ → PoolInfo
emitting n = record pool {
  rewards = record { reward = int luna; rps = n * fractional; index = 0; orphaned = 0 } ∷ [];
}

abbrev emitting_store : Store
emitting_store = record storage {
  config = record (storage.config) { reward_per_second = 8; total_alloc_points = 8 };
  active_pools = (token lp_1, 3) ∷ (token lp_2, 5) ∷ [];
  pools = λ a.
      if equal a (token lp_1)
      then some (emitting 3)
      else if equal a (token lp_2)
      then some (emitting 5)
      else none;
}

abbrev or_as_before : Result ContractError Store → Store
or_as_before (ok s) = s
or_as_before (err e) = emitting_store
or_as_before panic = emitting_store

abbrev deactivated : Store
deactivated = or_as_before (deactivate_pool exact chain in_order env by_owner lp_1 emitting_store)

deactivate_pool-IsBalanced_example : IsBalanced deactivated
unfolding deactivate_pool equal text_eq sum_points determine_asset_info update_rewards
deactivate_pool-IsBalanced_example =
    deactivate_pool-IsBalanced exact-IsDocumented chain in_order env by_owner lp_1 emitting_store
      deactivated refl refl

abbrev both : List AssetInfo
both = osmo ∷ atom ∷ []

abbrev actives : List ActivePool
actives =
    record { lp_asset = token lp_1; asset_infos = both; alloc_points = 3 }
    ∷ record { lp_asset = token lp_2; asset_infos = luna ∷ []; alloc_points = 5 }
    ∷ []

abbrev unlisted : Store
unlisted =
    or_as_before
      (update_blocked_pool_tokens exact chain registry in_order env by_owner both [] emitting_store)

update_blocked_pool_tokens-points_taken_example : unlisted.config.total_alloc_points + 6 ≡ 8
unfolding update_blocked_pool_tokens equal text_eq points_taken contains all_unique update_rewards
update_blocked_pool_tokens-points_taken_example =
    update_blocked_pool_tokens-points_taken exact-IsDocumented chain registry in_order env by_owner
      both [] emitting_store unlisted actives refl refl

abbrev factory : FactoryQueries
factory = record { pair_of = λ a infos. ok (pair_of lp_1); blacklisted_pair_types = λ a. ok [] }

abbrev chosen : Store
chosen =
    or_as_before (
      setup_pools exact chain registry factory in_order env by_owner ((lp_1, 4) ∷ [])
        emitting_store)

setup_pools-IsBalanced_example :
    (is_owner_or [] [] none ≡ true) × IsBalanced chosen × HasPoints chosen.active_pools
unfolding setup_pools equal text_eq sum_points determine_asset_info update_rewards is_owner_or
setup_pools-IsBalanced_example =
    setup_pools-IsBalanced exact-IsDocumented chain registry factory in_order env by_owner
      ((lp_1, 4) ∷ []) emitting_store chosen refl
