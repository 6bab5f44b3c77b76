-- ===== src/Rewards.antt =====
-- RewardsService and RewardsRepository of apps/api/src/rewards: the shop, where participants spend
-- points, and the delivery and cancellation of what they bought.
pub mod Repository
pub mod Service
pub mod Statements
pub mod Transitions
pub mod Purchase
pub mod Reversal
pub mod Undone
mod Tests
