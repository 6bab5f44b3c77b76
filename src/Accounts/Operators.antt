-- ===== src/Accounts/Operators.antt =====
-- The operators of admin/admin-operators.repository.ts and admin/admin-operators.service.ts.
pub mod Rows
pub mod Repository
pub mod Policy
pub mod Service
