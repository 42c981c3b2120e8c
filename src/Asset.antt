-- ===== src/Asset.antt =====
-- packages/astroport/src/asset.rs with the queries of packages/astroport/src/querier.rs that it
-- calls: asset infos, their validation, the funds sent with a call, the balances of a pair, and
-- the messages that move assets.
pub mod Types
pub mod Denom
pub mod Funds
pub mod Sent
mod Tests
pub mod Equality
pub mod Checks
pub use Types.*
unfoldable pub use Funds.{
  infos_of, assert_sent_native_token_balance, assert_coins_properly_sent, all_unique, check_input,
  check_coin, try_for_each, amount_of,
}
unfoldable pub use Checks.{
  check, check_swap_parameters, addr_opt_validate, query_pool, query_pools, into_msg, as_coin,
  query_native_supply, query_infos, or_zero,
}
