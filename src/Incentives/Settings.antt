-- ===== src/Incentives/Settings.antt =====
-- The config of the incentives (contracts/tokenomics/incentives/src/execute.rs).
use astroport_core.Common.{ℕ, Option, none, some, ◌&&◌, not, leb}
use astroport_core.Cosmwasm.{Result, ok, generic_err, ◌>>=◌, ◌>>◌, fail_if, map_err}
use astroport_core.Asset.{Text, text_eq, Chain, MessageInfo}
use astroport_core.Asset.Denom.{validate_native_denom}
use astroport_core.Incentives.Types.{ContractError, std, unauthorized}
use astroport_core.Incentives.Storage.{Config, IncentivizationFeeInfo, Store}

pub data GeneratorControllerUpdate : Type 0 where
  set_to : Text → GeneratorControllerUpdate
  unset no_change : GeneratorControllerUpdate

-- TOKEN_TRANSFER_GAS_LIMIT
abbrev pub least_gas_limit : ℕ
least_gas_limit = 400_000

abbrev pub greatest_gas_limit : ℕ
greatest_gas_limit = 1_500_000

-- The four settings that a message can change, one after another.
module _ (chain : Chain) where
  unfoldable pub with_controller : GeneratorControllerUpdate → Config → Result ContractError Config
  with_controller (set_to addr) config = do
    a ← map_err std (chain.addr_validate addr)
    ok (record config { generator_controller = some a })
  with_controller unset config = ok (record config { generator_controller = none })
  with_controller no_change config = ok config

  unfoldable pub with_guardian : Option Text → Config → Result ContractError Config
  with_guardian none config = ok config
  with_guardian (some guardian) config = do
    a ← map_err std (chain.addr_validate guardian)
    ok (record config { guardian = some a })

  unfoldable pub with_fee_info :
      Option IncentivizationFeeInfo → Config → Result ContractError Config
  with_fee_info none config = ok config
  with_fee_info (some new_info) config = do
    a ← map_err std (chain.addr_validate new_info.fee_receiver)
    valid ← map_err std (validate_native_denom new_info.fee.denom)
    ok (record config { incentivization_fee_info = some new_info })

unfoldable pub with_gas_limit : Option ℕ → Config → Result ContractError Config
with_gas_limit none config = ok config
with_gas_limit (some limit) config = do
  fail_if (not (leb least_gas_limit limit && leb limit greatest_gas_limit))
      (std (generic_err "Invalid token transfer gas limit"))
  ok (record config { token_transfer_gas_limit = some limit })

-- The whole handler.
unfoldable pub update_config :
    Chain
    → MessageInfo
    → GeneratorControllerUpdate
    → Option Text
    → Option IncentivizationFeeInfo
    → Option ℕ
    → Store
    → Result ContractError Store
unfolding with_controller with_guardian with_fee_info with_gas_limit
update_config chain info controller guardian fee_info gas_limit store = do
  fail_if (not (text_eq info.sender store.config.owner)) unauthorized
  config1 ← with_controller chain controller store.config
  config2 ← with_guardian chain guardian config1
  config3 ← with_fee_info chain fee_info config2
  config4 ← with_gas_limit gas_limit config3
  ok (record store { config = config4 })
