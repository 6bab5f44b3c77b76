-- ===== src/Accounts.antt =====
-- The accounts of apps/api/src: sessions (presence/sessions.*), sign-in (auth/*), operators and
-- participants as administrators change them (admin/admin-operators.*, admin/admin-participants.*).
pub mod Runtime
pub mod Passwords
pub mod Sessions
pub mod SignedIn
pub mod PasswordChange
pub mod Auth
pub mod Codes
pub mod Operators
pub mod Participants
pub mod Requests
pub mod Keeps
pub mod Stable
pub mod Steps
pub mod Changes
pub mod OperatorSteps
pub mod Run
pub mod Rows
pub mod Closed
pub mod Spent
pub mod Activated
pub mod Consumed
pub mod Generals
pub mod KeepsGeneral
pub mod Locked
pub mod LastGeneral
pub mod Revoked
mod Tests
