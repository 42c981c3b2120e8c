-- ===== src/Incentives.antt =====
-- contracts/tokenomics/incentives: the rewards of a pool and the positions of its users.
pub mod Types
pub mod Accrual
pub mod Conservation
pub mod Collection
pub mod Updates
pub mod Schedules
pub mod Extension
pub mod Funding
pub mod Positions
pub mod Payouts
pub mod Activation
pub mod Blocked
pub mod Chosen
pub mod Claims
pub mod Deregistration
pub mod Settings
pub mod Kept
pub mod Rewards
pub mod Stakes
pub mod Backing
pub mod Claimed
pub mod Withdrawals
pub mod Staked
pub mod Staking
pub mod Incentivizing
pub mod Orphans
pub mod Funds
pub mod Spending
pub mod Messages
pub mod Entry
pub mod Untouched
pub mod Administered
pub mod Handled
pub mod Served
pub mod Funded
pub mod Reach
pub mod Storage
pub mod Transfers
pub mod Emissions
pub mod Blocklist
pub mod Points
mod Tests
pub mod Inputs
