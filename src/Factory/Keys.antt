-- ===== src/Factory/Keys.antt =====
-- The key of a pair in the registry (contracts/factory/src/state.rs).
use astroport_core.Common.{◌≡◌, ap, List, [], ◌∷◌, ◌++◌, Option, none, some, map}
use mathlib.Core.List.{Perm}
use mathlib.Core.List.Perm
use astroport_core.Cosmwasm.{Result, ◌>>◌, fail_if, map_err}
use astroport_core.Common.{not}
use astroport_core.Asset.{
  AssetInfo, token, native_token, Text, Chain, check, all_unique, try_for_each,
}
use astroport_core.Texts.Sorting.{sorted, sorted-perm}
use astroport_core.Factory.Types.{ContractError, std, doubling_assets}

-- `AssetInfo::as_bytes`
unfoldable pub as_bytes : AssetInfo → Text
as_bytes (native_token denom) = denom
as_bytes (token contract_addr) = contract_addr

unfoldable pub flatten : List Text → Text
flatten [] = []
flatten (t ∷ ts) = t ++ flatten ts

unfoldable pub pair_key : List AssetInfo → Text
unfolding flatten as_bytes
pair_key asset_infos = flatten (sorted (map as_bytes asset_infos))

-- The key does not depend on the order of the assets.
pub pair_key-perm : (xs ys : List AssetInfo) → Perm xs ys → pair_key xs ≡ pair_key ys
unfolding pair_key
pair_key-perm xs ys p =
    ap flatten (sorted-perm (map as_bytes xs) (map as_bytes ys) (Perm.map as_bytes p))

-- `calc_range_start`
unfoldable pub calc_range_start : Option (List AssetInfo) → Option Text
calc_range_start none = none
calc_range_start (some asset_infos) = some (pair_key asset_infos ++ 1 ∷ [])

unfoldable pub check_asset_infos : Chain → List AssetInfo → Result ContractError (Unit {0})
check_asset_infos chain asset_infos = do
  fail_if (not (all_unique asset_infos)) doubling_assets
  map_err std (try_for_each (check chain) asset_infos)
