-- ===== src/Asset/Funds.antt =====
-- Checks of the coins sent with a call (packages/astroport/src/asset.rs, `Asset` and `CoinsExt`).
use astroport_core.Common.{ℕ, Bool, true, false, List, [], ◌∷◌, ◌==◌, ◌&&◌, not, if◌then◌else◌}
use astroport_core.Cosmwasm.{Result, ok, err, StdError, generic_err, ◌>>=◌, ◌>>◌, fail_if, or_err}
use astroport_core.Asset.Types.{
  Text, AssetInfo, token, native_token, Asset, Coin, MessageInfo, Chain, text_eq, contains,
}

-- `must_pay(message_info, denom)`, then the comparison with the argument.
unfoldable pub assert_sent_native_token_balance :
    Chain → Asset → MessageInfo → Result StdError (Unit {0})
assert_sent_native_token_balance chain a message_info = elim a.info [
  | token contract_addr ↦ ok tt
  | native_token denom ↦ do
    amount ← or_err (generic_err "Payment error") (chain.must_pay message_info denom)
    fail_if (not (a.amount == amount))
        (generic_err "Native token balance mismatch between the argument and the transferred")
]

-- `iter().try_for_each(...)`
unfoldable pub try_for_each :
    {A : Type 0} → (A → Result StdError (Unit {0})) → List A → Result StdError (Unit {0})
try_for_each f [] = ok tt
try_for_each f (x ∷ xs) = do f x; try_for_each f xs

-- `all_unique` over the infos of the assets.
unfoldable pub all_unique : List AssetInfo → Bool
all_unique [] = true
all_unique (x ∷ xs) = not (contains xs x) && all_unique xs

-- The coin of a denomination, or a coin of zero: `find(...).unwrap_or_else(...)`.
unfoldable pub amount_of : List Coin → Text → ℕ
amount_of [] d = 0
amount_of (c ∷ cs) d = if text_eq c.denom d then c.coin_amount else amount_of cs d

unfoldable pub infos_of : List Asset → List AssetInfo
infos_of [] = []
infos_of (a ∷ as') = a.info ∷ infos_of as'

unfoldable pub is_empty : List Asset → Bool
is_empty [] = true
is_empty (a ∷ as') = false

-- One round of the loop over the input assets.
unfoldable pub check_input : List Coin → List AssetInfo → Asset → Result StdError (Unit {0})
check_input coins pool_asset_infos input =
    if contains pool_asset_infos input.info
    then elim input.info [
      | native_token denom ↦
          fail_if (not (amount_of coins denom == input.amount))
            (generic_err "Native token balance mismatch between the argument and the transferred")
      | token contract_addr ↦ ok tt
    ]
    else err (generic_err "Asset is not in the pool")

-- One round of the loop over the coins.
unfoldable pub check_coin : List AssetInfo → Coin → Result StdError (Unit {0})
check_coin pool_asset_infos coin =
    if contains pool_asset_infos (native_token coin.denom)
    then ok tt
    else err (generic_err "Supplied coins contain a denom that is not in the input asset vector")

unfoldable pub assert_coins_properly_sent :
    List Coin → List Asset → List AssetInfo → Result StdError (Unit {0})
unfolding is_empty all_unique infos_of check_input check_coin try_for_each
assert_coins_properly_sent coins input_assets pool_asset_infos = do
  fail_if (is_empty input_assets) (generic_err "Empty input assets")
  fail_if (not (all_unique (infos_of input_assets))) (generic_err "Duplicated assets in the input")
  try_for_each (check_input coins pool_asset_infos) input_assets
  try_for_each (check_coin pool_asset_infos) coins
