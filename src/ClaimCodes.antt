-- ===== src/ClaimCodes.antt =====
-- ClaimCodesService and ClaimCodesRepository of apps/api/src/claim-codes: administrators switch codes
-- of one use on and off, one at a time or many, and make batches of them. The statements are in
-- Repository, the operations in
-- Status and Bulk; Generate makes a batch of new ones.
pub mod Repository
pub mod Status
pub mod Bulk
pub mod Switched
pub mod Tally
pub mod Settled
pub mod Generate
pub mod Made
pub mod Batch
mod Tests
