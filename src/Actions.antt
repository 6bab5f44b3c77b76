-- ===== src/Actions.antt =====
-- ActionsService and ActionsRepository of apps/api/src/actions: how participants redeem activities
-- and claim codes, and how an administrator grants a question. The repository's statements are in
-- Repository, the redemptions in Redeem, the grant in Question.
pub mod Repository
pub mod Redeem
pub mod Granted
pub mod Redeemed
pub mod Repeated
pub mod Succeeds
pub mod Question
pub mod QuestionGranted
mod Tests
