-- ===== src/Adjustments.antt =====
-- AdminAdjustmentsService and AdminAdjustmentsRepository of apps/api/src/admin: an administrator
-- adjusts the balance of a participant, or reverses an adjustment, under an idempotency key. The
-- statements are in Repository, the answer to a used key in Replay, the operations in Service.
pub mod Repository
pub mod Replay
pub mod Service
pub mod Posted
pub mod Settled
pub mod Replayed
pub mod Undone
pub mod ReversedOnce
mod Tests
