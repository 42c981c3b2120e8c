-- ===== src/Incentives/Tests/Calls.antt =====
-- Concrete calls of stakers and funders (contracts/tokenomics/incentives), and the theorems at them.
use astroport_core.Common.{arith, if◌then◌else◌, none, some, List, [], ◌∷◌, ◌++◌, ◌+◌, ◌≡◌, refl}
use astroport_core.Cosmwasm.{Result, ok, err, panic, generic_err, exact, exact-IsDocumented}
use astroport_core.Asset.{Text, native_token, Chain, MessageInfo, Env, PairInfo, xyk, CosmosMsg}
use astroport_core.Asset.Types.{equal, text_eq}
use astroport_core.Incentives.Types.{ContractError}
use astroport_core.Incentives.Accrual.{update_rewards}
use astroport_core.Incentives.Storage.{save, Store, determine_asset_info, asset_info_key}
use astroport_core.Incentives.Inputs.{from_input, InputSchedule, epochs_start}
use astroport_core.Asset.Denom.{validate_native_denom}
use astroport_core.Incentives.Positions.{calculate_rewards}
use astroport_core.Incentives.Schedules.{incentivize}
use astroport_core.Incentives.Blocklist.{Registry, lp_prefix, lp_subdenom}
use astroport_core.Incentives.Activation.{FactoryQueries}
use astroport_core.Incentives.Messages.{InstantiateMsg, ExecuteMsg}
use astroport_core.Incentives.Staking.{Outcome, withdraw}
use astroport_core.Incentives.Withdrawals.{Withdrawn, withdraw-Withdrawn}
use astroport_core.Incentives.Stakes.{sum_amounts, position_of}
use astroport_core.Incentives.Kept.{total_of}
use astroport_core.Incentives.Entry.{instantiate, execute}
use astroport_core.Incentives.Incentivizing.{incentivize_many}
use astroport_core.Incentives.Orphans.{
  first_entries, claim_orphaned_rewards, claim_orphaned_rewards_blocked,
}
use astroport_core.Incentives.Funds.{coins_of, sent_of, inputs_of}
use astroport_core.Incentives.Spending.{incentivize_many-coins_of}
use astroport_core.Incentives.Reach.{Reachable, instantiated, executed, Reachable-IsBacked}
use astroport_core.Incentives.Tests.{luna, in_order, storage}
use astroport_core.Incentives.Tests.Pools.{chain}

-- The LP tokens of the pair `p`.
abbrev lp_denom : Text
lp_denom = lp_prefix ++ b'/' ∷ b'p' ∷ b'/' ∷ lp_subdenom

abbrev osmo_denom : Text
osmo_denom = b'o' ∷ []

abbrev the_pair : PairInfo
the_pair = record {
  asset_infos = luna ∷ native_token osmo_denom ∷ [];
  contract_addr = b'p' ∷ [];
  liquidity_token = lp_denom;
  pair_type = xyk;
}

abbrev registry : Registry
registry = record { minter = ok; pair = λ a. ok the_pair }

abbrev factory : FactoryQueries
factory = record { pair_of = λ a infos. ok the_pair; blacklisted_pair_types = λ a. ok [] }

-- A chain on which each call has one coin.
abbrev with_coin : Chain
with_coin = record chain { one_coin = λ info. some (record { denom = lp_denom; coin_amount = 70 }) }

abbrev start_msg : InstantiateMsg
start_msg = record {
  owner = b'o' ∷ [];
  factory = b'f' ∷ [];
  reward_token = native_token (b'j' ∷ b'u' ∷ b'n' ∷ b'o' ∷ []);
  guardian = none;
  incentivization_fee_info = none;
}

abbrev or_storage : Result ContractError Store → Store
or_storage (ok s) = s
or_storage (err e) = storage
or_storage panic = storage

abbrev started : Store
started = or_storage (instantiate chain start_msg)

abbrev env : Env
env = record { time = 5_000; seconds = epochs_start; height = 1; self = b'i' ∷ [] }

abbrev by_user : MessageInfo
by_user = record { sender = b'u' ∷ []; funds = [] }

abbrev or_nothing : Result ContractError Outcome → Outcome
or_nothing (ok x) = x
or_nothing (err e) = (storage, ([], []))
or_nothing panic = (storage, ([], []))

abbrev deposited : Outcome
deposited = or_nothing (
    execute exact with_coin registry factory in_order ok env by_user started
      (ExecuteMsg.deposit none))

reached : Reachable exact deposited.0
unfolding instantiate execute equal text_eq update_rewards validate_native_denom calculate_rewards
    position_of
reached =
    executed with_coin registry factory in_order ok env by_user (ExecuteMsg.deposit none) deposited
      (instantiated chain start_msg refl) refl

Reachable-IsBacked_example :
    sum_amounts (deposited.0.positions (native_token lp_denom))
    ≡ total_of (deposited.0.pools (native_token lp_denom))
Reachable-IsBacked_example =
    Reachable-IsBacked exact-IsDocumented deposited.0 reached (native_token lp_denom)

staked_70 : sum_amounts (deposited.0.positions (native_token lp_denom)) ≡ 70
unfolding instantiate execute equal text_eq update_rewards sum_amounts validate_native_denom
    calculate_rewards position_of
staked_70 = refl

-- Two weeks of luna, with a fee of five osmo.
abbrev with_fee : Store
with_fee = record storage {
  config = record (storage.config) {
    reward_token = native_token (b'j' ∷ []);
    incentivization_fee_info =
        some (record {
          fee_receiver = b'f' ∷ [];
          fee = record { denom = osmo_denom; coin_amount = 5 };
        });
  };
  schedules = λ a info. [];
}

abbrev funded : MessageInfo
funded = record {
  sender = b'u' ∷ [];
  funds =
      record { denom = b'l' ∷ []; coin_amount = 1_209_600 }
      ∷ record { denom = osmo_denom; coin_amount = 5 }
      ∷ [];
}

abbrev weeks : List (Text × InputSchedule)
weeks =
    (lp_denom, record { reward = record { info = luna; amount = 1_209_600 }; duration_periods = 1 })
    ∷ []

abbrev or_unpaid : Result ContractError (Store × List CosmosMsg) → Store × List CosmosMsg
or_unpaid (ok x) = x
or_unpaid (err e) = (storage, [])
or_unpaid panic = (storage, [])

abbrev natively : Chain
natively = record chain {
  addr_validate = λ a. if text_eq a lp_denom then err (generic_err "") else ok a;
}

abbrev paid : Store × List CosmosMsg
paid =
    or_unpaid (incentivize_many exact natively registry factory in_order env funded weeks with_fee)

incentivize_many-coins_of_example :
    coins_of osmo_denom funded.funds ≡ sent_of osmo_denom paid.1 + inputs_of osmo_denom weeks
unfolding incentivize_many equal text_eq update_rewards determine_asset_info from_input
    validate_native_denom incentivize save
incentivize_many-coins_of_example =
    incentivize_many-coins_of exact-IsDocumented natively registry factory in_order env funded weeks
      with_fee paid.0 paid.1 refl osmo_denom

-- One orphaned entry of zero.
abbrev all_zero : Store
all_zero = record storage { orphaned_rewards = (asset_info_key luna, 0) ∷ [] }

abbrev by_owner : MessageInfo
by_owner = record { sender = []; funds = [] }

claim_orphaned_rewards_blocked_example :
    claim_orphaned_rewards exact ok chain by_owner none (b'r' ∷ []) all_zero ≡ ok (all_zero, [])
unfolding text_eq first_entries
claim_orphaned_rewards_blocked_example =
    claim_orphaned_rewards_blocked exact ok chain by_owner none (b'r' ∷ []) (b'r' ∷ []) all_zero
      (refl, tt) (omega arith) (omega arith) refl refl

abbrev withdrawn : Outcome
withdrawn = or_nothing (withdraw exact natively in_order env by_user lp_denom 30 deposited.0)

withdraw-Withdrawn_example : Withdrawn natively by_user lp_denom 30 deposited.0 withdrawn
unfolding withdraw execute instantiate equal text_eq update_rewards validate_native_denom
    calculate_rewards position_of determine_asset_info
withdraw-Withdrawn_example =
    withdraw-Withdrawn exact-IsDocumented natively in_order env by_user lp_denom 30 deposited.0
      withdrawn refl

forty_left : sum_amounts (withdrawn.0.positions (native_token lp_denom)) ≡ 40
unfolding withdraw execute instantiate equal text_eq update_rewards validate_native_denom
    calculate_rewards position_of determine_asset_info sum_amounts
forty_left = refl
