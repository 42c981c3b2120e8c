-- ===== src/Lib.antt =====
-- Astroport core: contracts of a decentralised exchange, on cosmwasm.
--
-- The development models the constant product pair (contracts/pair), the factory
-- (contracts/factory), the router (contracts/router) and the incentives
-- (contracts/tokenomics/incentives) with what they use of the package astroport
-- (packages/astroport), and the circular buffer (packages/circular_buffer).
--
-- Common: the names, tests and lemmas that all modules share.
-- Cosmwasm: how a call ends (a value, an error, a panic), and the arithmetic of the package
--   cosmwasm_std, which is not part of the repository. It is a record of functions that each
--   definition takes as a parameter; Cosmwasm/Laws states the documented behaviour of each one, and
--   that this behaviour determines them.
-- Asset: packages/astroport/src/asset.rs and the queries of packages/astroport/src/querier.rs:
--   asset infos and their equality, denominations, the funds sent with a call, the balances of a
--   pair, and the messages that move assets. Chain, in Asset/Types, is what the contracts ask of
--   the chain, of the factory and of the package cw_utils: it is a parameter.
-- Pair: contracts/pair/src/contract.rs, with state.rs and error.rs beside it.
--   Pair/Calc has its arithmetic, under the names of the source. Pair/Deposits, Pair/SwapSteps and
--   Pair/Handlers have provide_liquidity, withdraw_liquidity and swap; swap is cut in three, swap,
--   trade and settle, in the order of the source. Pair/Entry has instantiate, reply, update_config,
--   receive_cw20 and execute. A handler takes the storage and answers the new storage with the
--   messages that it emits; on an error or a panic the host drops both.
--   Pair/Swap, Pair/Shares, Pair/Limits and Pair/Prices are about the arithmetic; Pair/SwapRun,
--   Pair/Payments and Pair/Solvency are about a whole swap; Pair/Setup, Pair/Access and Pair/Reach
--   are about the config under all entry points; Pair/Tests has concrete runs.
-- Texts: the order of texts, sorting, and maps from texts as association lists sorted by key.
-- Ownership: packages/astroport/src/common.rs, the proposal of a new owner.
-- Factory: contracts/factory/src/contract.rs, state.rs and error.rs, with the messages of
--   packages/astroport/src/factory.rs. Factory/Keys has the key of a pair, Factory/Handlers the calls,
--   Factory/Entry instantiate, execute, reply and the queries. Factory/Invariant is about all
--   reachable states, Factory/Registry about the pairs and the owner, Factory/Collisions about keys.
-- Incentives: contracts/tokenomics/incentives/src/state.rs, with packages/astroport/src/incentives.rs.
--   Incentives/Accrual has update_rewards, cut along its loops; Incentives/Schedules has incentivize
--   and deregister_reward, Incentives/Inputs the input of a schedule, Incentives/Positions the
--   positions of users. Incentives/Conservation, Collection and Updates follow one reward over an
--   update, Extension and Funding over a new schedule, Deregistration over its removal;
--   Incentives/Storage has the storage, the saving of a pool, transfers and their replies (reply.rs) and
--   the removal of a reward as a whole call (utils.rs), Incentives/Transfers is about them;
--   Incentives/Emissions has the internal rewards of the active pools and the deactivation of a pool
--   (state.rs, utils.rs), Incentives/Activation which pools may be active, setup_pools and
--   deactivate_blocked_pools, Incentives/Blocklist the list of blocked tokens and the rate of the
--   internal rewards (execute.rs); Incentives/Points, Chosen and Blocked are about the sum of the
--   allocation points. Incentives/Settings has update_config. What the contract asks of tokens,
--   pairs and the factory is a parameter.
--   Incentives/Payouts and Claims are about what users can claim.
--   Incentives/Rewards has claim_finished_rewards and claim_rewards, Incentives/Stakes the positions
--   in storage, Incentives/Staking deposit, withdraw and the claim of rewards, Incentives/Incentivizing
--   incentivize and incentivize_many as whole calls, Incentives/Orphans the claim of orphaned
--   rewards; Incentives/Messages and Incentives/Entry have instantiate and execute (instantiate.rs,
--   execute.rs). Kept, Staked, Backing, Claimed, Untouched, Administered, Handled, Served and Funded
--   are about the LP tokens of a pool under each call, Incentives/Reach about all reachable states,
--   Incentives/Withdrawals about what a withdrawal pays, Incentives/Funds and Incentives/Spending
--   about the funds of incentivize_many. The order in which the source walks a hash map is a
--   parameter.
-- Router: contracts/router/src/contract.rs, operations.rs, state.rs and error.rs, with
--   packages/astroport/src/router.rs. Router/Operations has one step of a route, Router/Handlers the
--   checks of a route and the entry points, Router/Simulations the two simulations. Router/Routes is
--   about the routes that are accepted, Router/Receipts about what a receiver gets, Router/Spread
--   about the limit on the spread that the pairs of a route check.
-- Buffer: packages/circular_buffer/src/lib.rs. Buffer/Manager has the operations of the
--   BufferManager over a storage; Buffer/Staged is about the precommit buffer, Buffer/History and
--   Buffer/Session compare the buffer with the list of all values that were pushed.
-- Observation: the binary search of packages/astroport/src/observation.rs over a buffer.
--
-- Amounts are naturals, with the width of each checked operation written out; a Decimal is the
-- number of its atomics. Loops are structural recursions over lists, but for the binary search,
-- which runs on fuel: one round for each slot of the range is enough.
-- A parameter that comes as JSON is taken as parsed, with a value for a text that does not parse.
-- The texts of errors stand without the values that the source prints into them.
--
-- Not modelled: the queries and the migration of the pair, attributes of responses, the rest of the
-- observations, the migrations, the queries of the incentives and of the router's config, and the
-- other contracts (stable and concentrated pairs, oracle, registry, tracker, whitelist).
pub mod Asset
pub mod Buffer
pub mod Common
pub mod Cosmwasm
pub mod Factory
pub mod Incentives
pub mod Observation
pub mod Ownership
pub mod Pair
pub mod Router
pub mod Texts
