-- ===== src/Accounts/Participants.antt =====
-- admin/admin-participants.service.ts and admin/admin-participants.repository.ts: resetPassword and
-- updateStatus. The participant's page that updateStatus answers with is a read, and is left out.
use semcomp2026_gameficacao.Prelude.{
  ℕ, ◌+◌, ◌*◌, Bool, true, not, ◌&&◌, Option, some, ◌==◌, if◌then◌else◌,
}
use semcomp2026_gameficacao.Text.{Text}
use semcomp2026_gameficacao.Database.{Prisma}
use semcomp2026_gameficacao.Database.Schema.{Key, Date, User, participant}
use semcomp2026_gameficacao.Database.Failure.{
  Result, not_found, conflict, fault, participant_not_found, password_reset_pending,
}
use semcomp2026_gameficacao.Database.Tx.{
  Db, Tx, ◌>>=◌, ◌>>◌, pure, reads, or_throw, reject_if, with_transaction,
}
use semcomp2026_gameficacao.Audit.{AuditInput, record_audit}
use semcomp2026_gameficacao.Audit.Contract
use semcomp2026_gameficacao.Audit.Contract.{
  administrator, AuditMetadata, no_metadata, OperationContext, participant_status_changed,
  participant_password_reset,
}
use semcomp2026_gameficacao.ClaimCodes.Repository.{same_bool}
use semcomp2026_gameficacao.Accounts.Runtime.{Runtime}
use semcomp2026_gameficacao.Accounts.Passwords.{same_role, is_after, hash_participant_password}
use semcomp2026_gameficacao.Accounts.Sessions.{
  find_user, update_users, revoke_open_sessions, revoke_if_off,
}

-- auth/participant-temporary-password.ts
abbrev pub participant_temporary_password_ttl_ms : ℕ
participant_temporary_password_ttl_ms = 24 * 60 * 60 * 1000

pub record ResetPasswordDto : Type 0 where
  pub reason : Text
  pub replace_pending : Bool

pub record UpdateParticipantStatusDto : Type 0 where
  pub is_active : Bool
  pub reason : Text

-- What one request reads from the runtime.
pub record ResetDraw : Type 0 where
  pub temporary_password : Text
  pub salt : Key
  pub audit_event_id : Key
  pub now : Date

pub record TemporaryPassword : Type 0 where
  pub temporary_password : Text
  pub expires_at : Date

abbrev pub with_temporary_password :
    (password_hash : Text) → (changed_at expires_at : Date) → User → User
with_temporary_password password_hash changed_at expires_at u = record u {
  password_hash = some password_hash;
  password_changed_at = some changed_at;
  password_reset_required = true;
  password_reset_expires_at = some expires_at;
}

abbrev pub with_status : Bool → User → User
with_status is_active u = record u { is_active = is_active }

-- `pendingResetIsValid`
abbrev pub pending_reset_is_valid : Date → User → Bool
pending_reset_is_valid changed_at u =
    u.password_reset_required && is_after u.password_reset_expires_at changed_at

abbrev pub reset_audit :
    User → (after : User) → ℕ → ResetPasswordDto → OperationContext → AuditInput
reset_audit current after sessions_revoked dto context = record {
  actor = administrator context;
  operation = participant_password_reset;
  entity_type = Contract.AuditEntityType.participant;
  entity_id = current.id;
  participant_id = some current.id;
  reason = dto.reason;
  before = some (
      Contract.password_reset current.id current.password_reset_required
        current.password_reset_expires_at);
  after = some (
      Contract.password_reset after.id after.password_reset_required
        after.password_reset_expires_at);
  metadata = record no_metadata { sessions_revoked = some sessions_revoked };
}

abbrev pub participant_status_audit :
    User → (after : User) → UpdateParticipantStatusDto → OperationContext → AuditInput
participant_status_audit current after dto context = record {
  actor = administrator context;
  operation = participant_status_changed;
  entity_type = Contract.AuditEntityType.participant;
  entity_id = current.id;
  participant_id = some current.id;
  reason = dto.reason;
  before = some (Contract.participant_status current.id current.is_active);
  after = some (Contract.participant_status after.id after.is_active);
  metadata = no_metadata;
}

module _ ⦃P : Prisma⦄ where
  -- `lockParticipantStatus`, `lockParticipantPasswordReset`
  abbrev pub lock_participant_row : Key → Db → Option User
  lock_participant_row id = find_user (λ u. u.id == id && same_role u.role participant)

  unfoldable pub write_participant_status :
      User
      → UpdateParticipantStatusDto
      → OperationContext
      → (audit_event_id : Key) → Date
      → Tx (Unit {0})
  unfolding update_users revoke_open_sessions record_audit
  write_participant_status current dto context audit_event_id now = do
    _ ← update_users (λ u. u.id == current.id) (with_status dto.is_active)
    _ ← revoke_if_off dto.is_active current.id now
    _ ←
        record_audit audit_event_id now
          (participant_status_audit current (with_status dto.is_active current) dto context)
    pure tt

  unfoldable pub update_participant_status_tx :
      Key
      → UpdateParticipantStatusDto
      → OperationContext
      → (audit_event_id : Key) → Date
      → Tx (Unit {0})
  unfolding write_participant_status
  update_participant_status_tx id dto context audit_event_id now = do
    found ← reads (lock_participant_row id)
    current ← or_throw found (not_found participant_not_found)
    if same_bool current.is_active dto.is_active
        then pure tt
        else write_participant_status current dto context audit_event_id now

  unfoldable pub update_participant_status :
      Key
      → UpdateParticipantStatusDto
      → OperationContext
      → (audit_event_id : Key) → Date
      → Db
      → Result (Unit {0}) × Db
  unfolding update_participant_status_tx
  update_participant_status id dto context audit_event_id now =
      with_transaction (update_participant_status_tx id dto context audit_event_id now)

module _ ⦃P : Prisma⦄ ⦃X : Runtime⦄ where
  unfoldable pub write_reset_password :
      User
      → (password_hash : Text) → ResetPasswordDto
      → OperationContext
      → ResetDraw
      → Tx TemporaryPassword
  unfolding update_users revoke_open_sessions record_audit
  write_reset_password current password_hash dto context draw = do
    let expires_at = draw.now + participant_temporary_password_ttl_ms
    let data_of = with_temporary_password password_hash draw.now expires_at
    _ ← update_users (λ u. u.id == current.id) data_of
    sessions_revoked ← revoke_open_sessions current.id draw.now
    _ ←
        record_audit draw.audit_event_id draw.now
          (reset_audit current (data_of current) sessions_revoked dto context)
    pure (record { temporary_password = draw.temporary_password; expires_at = expires_at })

  unfoldable pub reset_password_tx :
      Key → ResetPasswordDto → OperationContext → ResetDraw → Tx TemporaryPassword
  unfolding hash_participant_password write_reset_password
  reset_password_tx id dto context draw = do
    password_hash ← or_throw (hash_participant_password draw.salt draw.temporary_password) fault
    found ← reads (lock_participant_row id)
    current ← or_throw found (not_found participant_not_found)
    reject_if (pending_reset_is_valid draw.now current && not dto.replace_pending)
        (conflict password_reset_pending)
    write_reset_password current password_hash dto context draw

  unfoldable pub reset_password :
      Key → ResetPasswordDto → OperationContext → ResetDraw → Db → Result TemporaryPassword × Db
  unfolding reset_password_tx
  reset_password id dto context draw = with_transaction (reset_password_tx id dto context draw)
