-- ===== src/Asset/Checks.antt =====
-- Validation of asset infos and swap parameters, the balances of a pair, and asset transfers
-- (packages/astroport/src/asset.rs, packages/astroport/src/querier.rs).
use astroport_core.Common.{ℕ, Bool, false, Option, none, some, List, [], ◌∷◌, ◌==◌, ◌||◌}
use astroport_core.Cosmwasm.{Result, ok, err, panic, StdError, generic_err, ◌>>=◌, ◌>>◌, fail_if}
use astroport_core.Asset.Types.{
  Text, Addr, AssetInfo, token, native_token, Asset, PairInfo, Coin, Chain, CosmosMsg, bank_send,
  cw20_transfer,
}
use astroport_core.Asset.Denom.{validate_native_denom}

-- The loop of `any(|pool| pool.is_zero())`.
unfoldable pub any_zero : List ℕ → Bool
any_zero [] = false
any_zero (p ∷ ps) = p == 0 || any_zero ps

unfoldable pub check_swap_parameters : List ℕ → ℕ → Result StdError (Unit {0})
unfolding any_zero
check_swap_parameters pools swap_amount = do
  fail_if (any_zero pools) (generic_err "One of the pools is empty")
  fail_if (swap_amount == 0) (generic_err "Swap amount must not be zero")

unfoldable pub as_coin : Asset → Result StdError Coin
as_coin a = elim a.info [
  | token contract_addr ↦ err (generic_err "Cannot convert token asset to coin")
  | native_token denom ↦ ok (record { denom = denom; coin_amount = a.amount })
]

unfoldable pub into_msg : Asset → Addr → Result StdError CosmosMsg
into_msg a recipient = elim a.info [
  | token contract_addr ↦ ok (cw20_transfer contract_addr recipient a.amount)
  | native_token denom ↦ ok (bank_send recipient (record { denom = denom; coin_amount = a.amount }))
]

-- The answer of a query, zero where it failed.
abbrev pub or_zero : Result StdError ℕ → Result StdError ℕ
or_zero (ok balance) = ok balance
or_zero (err e) = ok 0
or_zero panic = panic

module _ (chain : Chain) where
  -- `AssetInfo::check`
  unfoldable pub check : AssetInfo → Result StdError (Unit {0})
  check (token contract_addr) = do a ← chain.addr_validate contract_addr; ok tt
  check (native_token denom) = validate_native_denom denom

  unfoldable pub addr_opt_validate : Option Text → Result StdError (Option Addr)
  addr_opt_validate none = ok none
  addr_opt_validate (some addr) = do a ← chain.addr_validate addr; ok (some a)

  unfoldable pub query_balance : Addr → Text → Result StdError ℕ
  query_balance account_addr denom = do
    coin ← chain.bank_balance account_addr denom
    ok coin.coin_amount

  -- A token contract that does not answer counts as a balance of zero.
  unfoldable pub query_token_balance : Addr → Addr → Result StdError ℕ
  query_token_balance contract_addr account_addr =
      or_zero (chain.cw20_balance contract_addr account_addr)

  unfoldable pub query_native_supply : Text → Result StdError ℕ
  query_native_supply denom = do coin ← chain.bank_supply denom; ok coin.coin_amount

  -- `AssetInfo::query_pool`
  unfoldable pub query_pool : AssetInfo → Addr → Result StdError ℕ
  unfolding query_balance query_token_balance
  query_pool (token contract_addr) pool_addr = query_token_balance contract_addr pool_addr
  query_pool (native_token denom) pool_addr = query_balance pool_addr denom

  -- The loop of `PairInfo::query_pools`.
  unfoldable pub query_infos : List AssetInfo → Addr → Result StdError (List Asset)
  unfolding query_pool
  query_infos [] contract_addr = ok []
  query_infos (i ∷ is) contract_addr = do
    amount ← query_pool i contract_addr
    rest ← query_infos is contract_addr
    ok (record { info = i; amount = amount } ∷ rest)

  -- `PairInfo::query_pools`
  unfoldable pub query_pools : PairInfo → Addr → Result StdError (List Asset)
  unfolding query_infos
  query_pools pair_info contract_addr = query_infos pair_info.asset_infos contract_addr
