-- ===== src/Incentives/Messages.antt =====
-- The messages of the incentives (packages/astroport/src/incentives.rs).
use astroport_core.Common.{ℕ, Bool, Option, List}
use astroport_core.Asset.{Text, AssetInfo}
use astroport_core.Incentives.Inputs.{InputSchedule}
use astroport_core.Incentives.Storage.{IncentivizationFeeInfo}
use astroport_core.Incentives.Settings.{GeneratorControllerUpdate}

pub record InstantiateMsg : Type 0 where
  pub owner : Text
  pub factory : Text
  pub reward_token : AssetInfo
  pub guardian : Option Text
  pub incentivization_fee_info : Option IncentivizationFeeInfo

pub data ExecuteMsg : Type 0 where
  setup_pools : List (Text × ℕ) → ExecuteMsg
  claim_rewards : List Text → ExecuteMsg
  deposit : Option Text → ExecuteMsg
  withdraw : Text → ℕ → ExecuteMsg
  set_tokens_per_second : ℕ → ExecuteMsg
  incentivize : Text → InputSchedule → ExecuteMsg
  incentivize_many : List (Text × InputSchedule) → ExecuteMsg
  remove_reward_from_pool : Text → Text → Bool → Text → ExecuteMsg
  claim_orphaned_rewards : Option ℕ → Text → ExecuteMsg
  update_config :
      GeneratorControllerUpdate
      → Option Text
      → Option IncentivizationFeeInfo
      → Option ℕ
      → ExecuteMsg
  update_blocked_tokenslist : List AssetInfo → List AssetInfo → ExecuteMsg
  deactivate_pool : Text → ExecuteMsg
  deactivate_blocked_pools : ExecuteMsg
  propose_new_owner : Text → ℕ → ExecuteMsg
  drop_ownership_proposal claim_ownership : ExecuteMsg
