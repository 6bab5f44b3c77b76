-- ===== src/Lib.antt =====
-- Semcomp 2026 Gameficação: the point ledger and the accounts of the API (apps/api/src).
--
-- Participants earn points and XP by redeeming activities and claim codes, spend points on rewards,
-- and administrators deliver, cancel, adjust and reverse. Every movement of points is one row of
-- `PointEvent`, and `User` holds the balance beside it. Services (`*.service.ts`) decide,
-- repositories (`*.repository.ts`) speak to the database, and every operation of an administrator
-- writes an audit event in the same transaction.
--
-- The files:
--   Prelude, Prelude/*    Boolean tests, integers over the native numbers, lists
--   Text, Text/Trim       JavaScript strings as UTF-16 code units: trim, toUpperCase, ===
--   EventCode, /Mask, /Generated
--                         common/event-code.ts and common/claim-code-mask.ts
--   Accounts, /Runtime, /Passwords, /Sessions, /PasswordChange, /Auth
--                         presence/sessions.repository.ts, common/session-duration.ts,
--                         users/users.repository.ts (the lookups) and auth/auth.service.ts: register, login, adminLogin,
--                         heartbeat, logout, changeRequiredPassword;
--                         bcrypt, SHA-256, the letter case and the random bytes are the interface of /Runtime
--   Accounts/Codes, /Operators, /Participants
--                         admin/admin-activation-code.ts, admin/admin-operators.repository.ts,
--                         admin/admin-operators.service.ts and the password reset of
--                         admin/admin-participants: create, regenerate, update, activate, resetPassword
--   Accounts/Requests     the requests of those services and a run of them; /Keeps, /Stable, /Steps,
--                         /Changes, /OperatorSteps and /Run what a run keeps; /Rows, /Closed, /Spent,
--                         /Activated, /Consumed, /Generals, /KeepsGeneral, /Locked, /LastGeneral,
--                         /SignedIn and /Revoked the theory of sessions, activation codes and general administrators
--   Database              Prisma and PostgreSQL as the interface `Prisma`, with their laws; /Schema the
--                         rows of apps/api/prisma/schema; /Failure the exceptions; /Tx transactions;
--                         /Inversion what a transaction that returned has run; /Memory an instance
--   Audit, /Contract, /Record
--                         audit/audit.service.ts (record, operationRules, validateContext) and the writer
--                         of audit/audit.repository.ts
--   Ledger                pointEvent.create and the balance's user.update, with the unique indexes and
--                         CHECK constraints of the migrations; /Sums, /Posting, /Appended, /Statements its
--                         theory
--   Actions, /Repository, /Redeem, /Question
--                         actions/actions.repository.ts and actions/actions.service.ts: redeem,
--                         redeemByCode, redeemClaimCode, grantAction, grantQuestionAction; /Granted,
--                         /Redeemed, /Repeated, /Succeeds, /QuestionGranted their theory
--   Rewards, /Repository, /Service
--                         rewards/rewards.repository.ts and rewards/rewards.service.ts: redeem,
--                         deliverRedemption, cancelRedemption; the other children their theory
--   Adjustments, /Repository, /Replay, /Service
--                         admin/admin-adjustments.repository.ts and admin/admin-adjustments.service.ts:
--                         adjust, reverse and their replays; the other children their theory
--   Reconciliation, /Repository, /Snapshot, /Replay, /Service, /Listing
--                         admin/admin-reconciliation.repository.ts and
--                         admin/admin-reconciliation.service.ts: confirm, its replay and the listings;
--                         /Deltas, /Settled, /Confirmed and /Divergent their theory
--   ClaimCodes, /Repository, /Status, /Bulk, /Generate
--                         claim-codes/claim-codes.repository.ts and
--                         claim-codes/claim-codes.service.ts: updateStatus, bulkUpdateStatus,
--                         generateBatch; /Switched, /Tally, /Settled, /Made and /Batch their theory
--   Presence, /Peak       presence/presence.service.ts: findOverallPeak and findLatestCollection
--   SecurityMetrics, /Counts
--                         security/security-http-metrics.buffer.ts
--   Ranking               ranking/ranking.service.ts and ranking/ranking.repository.ts; /Order, /Sorted,
--                         /Position and /Me their theory
--   Csv, /Reader, /Limit  exports/csv.ts: the escaping of fields, and a reader of such files
--   DownloadGate, /Runs   common/download-gate.ts, and its runs as a step relation
--   Pagination, /Whole    common/dto/pagination-response.dto.ts, and the skip and take of the
--                         repositories' pages
--   System                the requests of the ledger's services and a run of them; /Effect, /Effects,
--                         /Requests and /CodeRequests what one request does, /Run and /UsedCodes what follows for all
--   Samples, */Tests      a small database, runs and instances
--
-- A transaction is a function from the state of the database to a result and the next state; one
-- that throws has no next state, which is how the model says that it is rolled back. Transactions
-- run one after another: the branches that answer to a concurrent request are modelled, and no
-- interleaving reaches them. A primary key, a unique index or a CHECK of `PointEvent` that fails is
-- an error of the statement, as is a number outside of an INTEGER column; the CHECKs of the other
-- tables are left out, and foreign keys are not checked apart from the statements that need the
-- row. Ids are numbers, and their order stands for both that of the database and `localeCompare`;
-- dates are milliseconds, and the ids and dates that the runtime makes are arguments (`Fresh`).
-- There is no fuel of the model's own: every loop is over a list, but those of generateBatch, which
-- the source bounds by its constants.
-- The requests of the accounts run over the same database, in a run of their own, and each of them
-- reads the clock once.
--
-- Not modelled: the web application, controllers, guards, tokens and cookies, the rest of
-- presence, the queries of exports, statistics, the administration of
-- activities and rewards, the listings of codes, operators and participants, the contents of an
-- audit event beyond its contract (its shown names, its field filters and the checks of the fields
-- of snapshots and metadata, which the types give here), and `updatedAt`.
pub mod Prelude
pub mod Text
pub mod EventCode
pub mod Database
pub mod Audit
pub mod Ledger
pub mod Accounts
pub mod Actions
pub mod Rewards
pub mod Adjustments
pub mod ClaimCodes
pub mod Csv
pub mod DownloadGate
pub mod Pagination
pub mod Presence
pub mod Ranking
pub mod Reconciliation
pub mod Samples
pub mod SecurityMetrics
pub mod System
