-- ===== src/Audit.antt =====
-- `AuditService.record` of apps/api/src/audit/audit.service.ts, and the writer of
-- audit.repository.ts behind it.
pub mod Contract
pub mod Record
use semcomp2026_gameficacao.Prelude.{
  ℕ, ◌≡◌, Bool, true, false, not, ◌&&◌, ◌||◌, Option, none, some, length, ltb, ◌==◌, if◌then◌else◌,
}
use semcomp2026_gameficacao.Text.{Text, trim}
use semcomp2026_gameficacao.Database.{Prisma}
use semcomp2026_gameficacao.Database.Schema.{Key, Date}
use semcomp2026_gameficacao.Database.Failure.{
  ok, err, bad_request, fault, audit_context, audit_snapshot, audit_reason,
}
use semcomp2026_gameficacao.Database.Tx.{Db, Tx, ◌>>=◌, ◌>>◌, reject_if}
use Contract.{
  AuditOperation, AuditEntityType, participant, action, claim_code_batch, claim_code, reward,
  reward_redemption, point_event, reconciliation, claim_code_bulk_operation, admin_operator,
  SnapshotKind, Snapshot, snapshot_kind, ParticipantRule, required, optional, forbidden,
  OperationRule, operation_rules, AuditMetadata, AuditActor, actor_admin, actor_request, AuditEvent,
}

-- `RecordAuditEventInput`, with the two kinds of actor.
pub record AuditInput : Type 0 where
  pub actor : AuditActor
  pub operation : AuditOperation
  pub entity_type : AuditEntityType
  pub entity_id : Key
  pub participant_id : Option Key
  pub reason : Text
  pub before : Option Snapshot
  pub after : Option Snapshot
  pub metadata : AuditMetadata

abbrev pub entity_tag : AuditEntityType → ℕ
entity_tag AuditEntityType.participant = 0
entity_tag AuditEntityType.action = 1
entity_tag AuditEntityType.claim_code_batch = 2
entity_tag AuditEntityType.claim_code = 3
entity_tag AuditEntityType.reward = 4
entity_tag AuditEntityType.reward_redemption = 5
entity_tag AuditEntityType.point_event = 6
entity_tag AuditEntityType.reconciliation = 7
entity_tag AuditEntityType.claim_code_bulk_operation = 8
entity_tag AuditEntityType.admin_operator = 9

abbrev pub kind_tag : SnapshotKind → ℕ
kind_tag SnapshotKind.participant_status = 0
kind_tag SnapshotKind.admin_operator = 1
kind_tag SnapshotKind.password_reset = 2
kind_tag SnapshotKind.action_rule = 3
kind_tag SnapshotKind.active_entity = 4
kind_tag SnapshotKind.claim_code_batch_rule = 5
kind_tag SnapshotKind.claim_code_bulk = 6
kind_tag SnapshotKind.claim_code_rule = 7
kind_tag SnapshotKind.reward_rule = 8
kind_tag SnapshotKind.delivery_before = 9
kind_tag SnapshotKind.delivery_after = 10
kind_tag SnapshotKind.cancellation_before = 11
kind_tag SnapshotKind.cancellation_after = 12
kind_tag SnapshotKind.reconciliation_balance = 13
kind_tag SnapshotKind.balance_before = 14
kind_tag SnapshotKind.balance_adjusted_after = 15
kind_tag SnapshotKind.balance_reversal_before = 16
kind_tag SnapshotKind.balance_reversal_after = 17

abbrev pub valid_participant : ParticipantRule → Option Key → Bool
valid_participant ParticipantRule.required none = false
valid_participant ParticipantRule.required (some _) = true
valid_participant ParticipantRule.optional p = true
valid_participant ParticipantRule.forbidden none = true
valid_participant ParticipantRule.forbidden (some _) = false

-- `validContract` of `validateContext`.
unfoldable pub valid_contract : AuditInput → Bool
unfolding operation_rules
valid_contract input =
    let rule = operation_rules input.operation in
    entity_tag input.entity_type == entity_tag rule.entity_type
    && valid_participant rule.participant input.participant_id

-- `validateOptionalObject` for a snapshot, which is required where its rule is declared.
unfoldable pub valid_snapshot : Option Snapshot → Option SnapshotKind → Bool
valid_snapshot none none = true
valid_snapshot none (some rule) = false
valid_snapshot (some source) none = false
valid_snapshot (some source) (some rule) = kind_tag (snapshot_kind source) == kind_tag rule

abbrev pub invalid_reason : Text → Bool
invalid_reason reason = ltb (length reason) 10 || ltb 500 (length reason)

abbrev pub event_of : Key → Date → AuditInput → AuditEvent
event_of id now input = record {
  id = id;
  actor_admin_id = actor_admin input.actor;
  participant_id = input.participant_id;
  operation = input.operation;
  entity_type = input.entity_type;
  entity_id = input.entity_id;
  reason = trim input.reason;
  before = input.before;
  after = input.after;
  metadata = input.metadata;
  request_id = actor_request input.actor;
  created_at = now;
}

module _ ⦃P : Prisma⦄ where
  abbrev store_audit : AuditEvent → Option AuditEvent → Tx AuditEvent
  store_audit e none db = ok (e, record db { audit_events = P.create e.id e db.audit_events })
  store_audit e (some old) db = err fault

  -- `TransactionAuditWriter.create`
  unfoldable pub write_audit : AuditEvent → Tx AuditEvent
  write_audit e db = store_audit e (P.find_unique e.id db.audit_events) db

  -- `AuditService.record`; `id` and `now` are what the database fills in.
  unfoldable pub record_audit : (id : Key) (now : Date) → AuditInput → Tx AuditEvent
  unfolding operation_rules
  record_audit id now input = do
    reject_if (not (valid_contract input)) (bad_request audit_context)
    let rule = operation_rules input.operation
    reject_if (not (valid_snapshot input.before rule.before)) (bad_request audit_snapshot)
    reject_if (not (valid_snapshot input.after rule.after)) (bad_request audit_snapshot)
    reject_if (invalid_reason (trim input.reason)) (bad_request audit_reason)
    write_audit (event_of id now input)
