-- ===== src/Reconciliation.antt =====
-- AdminReconciliationService and AdminReconciliationRepository of apps/api/src/admin: the balance
-- of a participant beside the sums of the ledger, and the compensation that makes the ledger agree.
-- The statements are in Repository, what is computed without them in Snapshot, the answer to a used
-- key in Replay, the operations in Service and the listing in Listing.
pub mod Repository
pub mod Snapshot
pub mod Deltas
pub mod Replay
pub mod Settled
pub mod Confirmed
pub mod Service
pub mod Listing
pub mod Divergent
mod Tests
