-- ===== src/Database/Tx.antt =====
-- The state of the database, and the work of one transaction over it. A transaction that throws is
-- rolled back by PostgreSQL, so its failure carries no state.
use semcomp2026_gameficacao.Prelude.{
  ◌^◌, Bool, true, false, ◌&&◌, Option, none, some, ℤ, pos_part, neg_part, ltb, leb,
}
use semcomp2026_gameficacao.Database.{Prisma}
use semcomp2026_gameficacao.Database.Schema.{
  User, Action, ClaimCode, ClaimCodeBatch, ClaimCodeBulkOperation, PointEvent, Reward,
  RewardRedemption, AdminActivation, UserSession,
}
use semcomp2026_gameficacao.Database.Failure.{Failure, Result, ok, err}
use semcomp2026_gameficacao.Audit.Contract.{AuditEvent}

pub record Db ⦃P : Prisma⦄ : Type 0 where
  pub users : P.Table User
  pub actions : P.Table Action
  pub claim_codes : P.Table ClaimCode
  pub claim_code_batches : P.Table ClaimCodeBatch
  pub bulk_operations : P.Table ClaimCodeBulkOperation
  pub point_events : P.Table PointEvent
  pub rewards : P.Table Reward
  pub redemptions : P.Table RewardRedemption
  pub audit_events : P.Table AuditEvent
  pub admin_activations : P.Table AdminActivation
  pub sessions : P.Table UserSession

-- An `INTEGER` column of PostgreSQL.
abbrev pub fits_int4 : ℤ → Bool
fits_int4 z = ltb (pos_part z) (2 ^ 31) && leb (neg_part z) (2 ^ 31)

module _ ⦃P : Prisma⦄ where
  abbrev pub Tx {ℓ} : Type ℓ → Type ℓ
  Tx A = Db → Result (A × Db)

  pub pure {ℓ} : {A : Type ℓ} → A → Tx A
  pure a db = ok (a, db)

  pub throw {ℓ} : {A : Type ℓ} → Failure → Tx A
  throw e db = err e

  pub reads {ℓ} : {A : Type ℓ} → (Db → A) → Tx A
  reads f db = ok (f db, db)

  pub or_throw {ℓ} : {A : Type ℓ} → Option A → Failure → Tx A
  or_throw none e db = err e
  or_throw (some a) e db = ok (a, db)

  pub reject_if : Bool → Failure → Tx (Unit {0})
  reject_if true e db = err e
  reject_if false e db = ok (tt, db)

  infixl 5 ◌>>=◌ ◌>>◌
  -- To open this is to open the statements above.
  unfoldable pub ◌>>=◌ {ℓ κ} : {A : Type ℓ} {B : Type κ} → Tx A → (A → Tx B) → Tx B
  unfolding pure throw reads or_throw reject_if
  ◌>>=◌ m f db = elim (m db) [ err e ↦ err e | ok (a, db') ↦ f a db' ]

  abbrev pub ◌>>◌ {κ} : {B : Type κ} → Tx (Unit {0}) → Tx B → Tx B
  m >> k = m >>= λ _. k

  -- `prisma.$transaction`: the new state is kept if the callback returns.
  abbrev pub with_transaction {ℓ} : {A : Type ℓ} → Tx A → Db → Result A × Db
  with_transaction m db = elim (m db) [ err e ↦ (err e, db) | ok (a, db') ↦ (ok a, db') ]

  -- `catch` that throws again.
  abbrev pub rethrow {ℓ} : {A : Type ℓ} → (Failure → Failure) → Result A × Db → Result A × Db
  rethrow f (ok a, db) = (ok a, db)
  rethrow f (err e, db) = (err (f e), db)
