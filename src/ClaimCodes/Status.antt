-- ===== src/ClaimCodes/Status.antt =====
-- claim-codes.service.ts: `updateStatus`.
use semcomp2026_gameficacao.Prelude.{ℕ, ◌==◌, Bool, not, Option, none, some, if◌then◌else◌}
use semcomp2026_gameficacao.Text.{Text}
use semcomp2026_gameficacao.EventCode.{mask_claim_code}
use semcomp2026_gameficacao.Database.{Prisma}
use semcomp2026_gameficacao.Database.Schema.{Key, Date, Fresh, User}
use semcomp2026_gameficacao.Database.Failure.{
  Result, not_found, conflict, claim_code_not_found, code_already_used, status_changed_concurrently,
}
use semcomp2026_gameficacao.Database.Tx.{
  Db, Tx, pure, ◌>>=◌, ◌>>◌, reads, throw, or_throw, reject_if, with_transaction,
}
use semcomp2026_gameficacao.Audit.{AuditInput, record_audit}
use semcomp2026_gameficacao.Audit.Contract.{
  claim_code_status_changed, OperationContext, administrator, no_metadata,
}
use semcomp2026_gameficacao.Audit.Contract
use semcomp2026_gameficacao.ClaimCodes.Repository.{
  HistoryRow, same_bool, find_claim_code_by_id, update_claim_code_status,
}

-- `UpdateClaimCodeStatusDto`
pub record UpdateStatusDto : Type 0 where
  pub is_active : Bool
  pub reason : Text

pub data ClaimCodeStatus : Type 0 where
  available disabled blocked_by_action used : ClaimCodeStatus

-- The reply of `toHistory`.
pub record History : Type 0 where
  pub id : Key
  pub code : Text
  pub is_active : Bool
  pub is_used : Bool
  pub used_by : Option (Key × Text)
  pub created_at : Date
  pub used_at : Option Date
  pub action : Key × Text
  pub status : ClaimCodeStatus

abbrev pub status_of_code : HistoryRow → ClaimCodeStatus
status_of_code row =
    if row.code.is_used
    then used
    else if not row.code.is_active
    then disabled
    else if not row.action.is_active
    then blocked_by_action
    else available

abbrev who : Option User → Option (Key × Text)
who none = none
who (some u) = some (u.id, u.name)

-- `toHistory`
abbrev pub to_history : HistoryRow → History
to_history row = record {
  id = row.code.id;
  code = row.code.code;
  is_active = row.code.is_active;
  is_used = row.code.is_used;
  used_by = who row.used_by;
  created_at = row.code.created_at;
  used_at = row.code.used_at;
  action = (row.action.id, row.action.name);
  status = status_of_code row;
}

abbrev pub status_audit :
    Key → HistoryRow → HistoryRow → UpdateStatusDto → OperationContext → AuditInput
status_audit id current row dto context =
    let masked = mask_claim_code current.code.code in
    record {
      actor = administrator context;
      operation = claim_code_status_changed;
      entity_type = Contract.AuditEntityType.claim_code;
      entity_id = id;
      participant_id = none;
      reason = dto.reason;
      before = some (Contract.claim_code id current.code.is_active current.code.is_used masked);
      after = some (Contract.claim_code id row.code.is_active row.code.is_used masked);
      metadata = no_metadata;
    }

module _ ⦃P : Prisma⦄ where
  -- After the update: `count` rows changed, and the row is `row` now.
  abbrev pub changed_or_not :
      ℕ → Key → HistoryRow → HistoryRow → UpdateStatusDto → OperationContext → Fresh → Tx History
  changed_or_not count id current row dto context fresh =
      if count == 0
      then if same_bool row.code.is_active dto.is_active
        then pure (to_history row)
        else throw (conflict status_changed_concurrently)
      else record_audit fresh.audit_event_id fresh.now (status_audit id current row dto context)
        >>= λ _. pure (to_history row)

  unfoldable pub switch_status :
      Key → HistoryRow → UpdateStatusDto → OperationContext → Fresh → Tx History
  switch_status id current dto context fresh = do
    count ← update_claim_code_status id dto.is_active current.code.is_active
    found ← reads (find_claim_code_by_id id)
    row ← or_throw found (not_found claim_code_not_found)
    reject_if row.code.is_used (conflict code_already_used)
    changed_or_not count id current row dto context fresh

  unfoldable pub update_status_tx : Key → UpdateStatusDto → OperationContext → Fresh → Tx History
  update_status_tx id dto context fresh = do
    found ← reads (find_claim_code_by_id id)
    current ← or_throw found (not_found claim_code_not_found)
    reject_if current.code.is_used (conflict code_already_used)
    if same_bool current.code.is_active dto.is_active
        then pure (to_history current)
        else switch_status id current dto context fresh

  unfoldable pub update_status :
      Key → UpdateStatusDto → OperationContext → Fresh → Db → Result History × Db
  update_status id dto context fresh = with_transaction (update_status_tx id dto context fresh)
