-- ===== src/Audit/Contract.antt =====
-- What an audit event may hold: the operations, the entities, the snapshots and the rule of each
-- operation, of apps/api/src/audit/audit.service.ts. A snapshot is of one of the kinds that the
-- source lists as `ObjectRule`s; the fields of a kind are those of its TypeScript interface.
use semcomp2026_gameficacao.Prelude.{ℕ, ℤ, Bool, Option, none, some, List}
use semcomp2026_gameficacao.Database.Schema.{
  Key, Date, Text, UserRole, AdminProfile, ActionType, RedemptionStatus,
}

pub data AuditOperation : Type 0 where
  participant_status_changed : AuditOperation
  action_created action_updated action_status_changed : AuditOperation
  claim_code_batch_generated claim_code_status_changed : AuditOperation
  reward_created reward_updated reward_status_changed : AuditOperation
  reward_redemption_delivered reward_redemption_cancelled : AuditOperation
  participant_balance_adjusted participant_balance_adjustment_reversed : AuditOperation
  reconciliation_adjustment_confirmed claim_code_bulk_status_changed : AuditOperation
  admin_operator_created admin_operator_updated admin_operator_status_changed : AuditOperation
  admin_operator_activation_reset admin_operator_activated participant_password_reset :
      AuditOperation

pub data AuditEntityType : Type 0 where
  participant action claim_code_batch claim_code reward reward_redemption point_event :
      AuditEntityType
  reconciliation claim_code_bulk_operation admin_operator : AuditEntityType

-- The names of the `ObjectRule`s of a snapshot.
pub data SnapshotKind : Type 0 where
  participant_status admin_operator password_reset action_rule active_entity : SnapshotKind
  claim_code_batch_rule claim_code_bulk claim_code_rule reward_rule : SnapshotKind
  delivery_before delivery_after cancellation_before cancellation_after : SnapshotKind
  reconciliation_balance balance_before balance_adjusted_after : SnapshotKind
  balance_reversal_before balance_reversal_after : SnapshotKind

pub record ActionFields : Type 0 where
  pub id : Key
  pub name : Text
  pub description : Option Text
  pub type : ActionType
  pub points : ℤ
  pub is_active : Bool
  pub is_code_active : Bool
  pub has_code : Bool
  pub code_changed : Option Bool

pub record BalanceFields : Type 0 where
  pub participant_id : Key
  pub points : ℤ
  pub xp : ℤ
  pub role : UserRole
  pub is_active : Bool

pub record ReconciliationFields : Type 0 where
  pub participant_id : Key
  pub stored_points : ℤ
  pub stored_xp : ℤ
  pub ledger_points : ℤ
  pub ledger_xp : ℤ
  pub points_difference : ℤ
  pub xp_difference : ℤ

-- The snapshots that the modelled services record.
pub data Snapshot : Type 0 where
  participant_status : Key → (is_active : Bool) → Snapshot
  admin_operator : Key → Text → AdminProfile → (is_active : Bool) → (created_at : Date) → Snapshot
  password_reset : Key → (required : Bool) → (expires_at : Option Date) → Snapshot
  active_entity : (is_active : Bool) → Snapshot
  action_fields : ActionFields → Snapshot
  claim_code_batch : (requested created : ℕ) (action_id : Key) → Snapshot
  claim_code_bulk : (target : Bool) (selected changed unchanged used not_found : ℕ) → Snapshot
  claim_code : Key → (is_active is_used : Bool) (masked_code : Text) → Snapshot
  reward_fields : Key → Text → Option Text → (cost stock : ℤ) → Bool → Snapshot
  delivery_before : Key → RedemptionStatus → Option Date → Option Key → Snapshot
  delivery_after : Key → RedemptionStatus → Option Date → Option Key → Snapshot
  cancellation_before : Key → RedemptionStatus → (stock points : ℤ) → Snapshot
  cancellation_after :
      Key → RedemptionStatus → (stock points : ℤ) → Option Date → Option Key → Key → Snapshot
  balance_before : BalanceFields → Snapshot
  balance_adjusted_after : BalanceFields → (point_event_id : Key) → Snapshot
  balance_reversal_before : Key → (points xp : ℤ) (original : Key) → Snapshot
  balance_reversal_after : Key → (points xp : ℤ) (point_event_id original : Key) → Snapshot
  reconciliation : ReconciliationFields → (point_event_ids : Option (List Key)) → Snapshot

abbrev pub snapshot_kind : Snapshot → SnapshotKind
snapshot_kind (participant_status _ _) = SnapshotKind.participant_status
snapshot_kind (admin_operator _ _ _ _ _) = SnapshotKind.admin_operator
snapshot_kind (password_reset _ _ _) = SnapshotKind.password_reset
snapshot_kind (active_entity _) = SnapshotKind.active_entity
snapshot_kind (action_fields _) = SnapshotKind.action_rule
snapshot_kind (claim_code_batch _ _ _) = SnapshotKind.claim_code_batch_rule
snapshot_kind (claim_code_bulk _ _ _ _ _ _) = SnapshotKind.claim_code_bulk
snapshot_kind (claim_code _ _ _ _) = SnapshotKind.claim_code_rule
snapshot_kind (reward_fields _ _ _ _ _ _) = SnapshotKind.reward_rule
snapshot_kind (delivery_before _ _ _ _) = SnapshotKind.delivery_before
snapshot_kind (delivery_after _ _ _ _) = SnapshotKind.delivery_after
snapshot_kind (cancellation_before _ _ _ _) = SnapshotKind.cancellation_before
snapshot_kind (cancellation_after _ _ _ _ _ _ _) = SnapshotKind.cancellation_after
snapshot_kind (balance_before _) = SnapshotKind.balance_before
snapshot_kind (balance_adjusted_after _ _) = SnapshotKind.balance_adjusted_after
snapshot_kind (balance_reversal_before _ _ _ _) = SnapshotKind.balance_reversal_before
snapshot_kind (balance_reversal_after _ _ _ _ _) = SnapshotKind.balance_reversal_after
snapshot_kind (reconciliation _ _) = SnapshotKind.reconciliation_balance

pub data ParticipantRule : Type 0 where
  required optional forbidden : ParticipantRule

pub record OperationRule : Type 0 where
  pub entity_type : AuditEntityType
  pub participant : ParticipantRule
  pub before : Option SnapshotKind
  pub after : Option SnapshotKind

abbrev rule :
    AuditEntityType → ParticipantRule → Option SnapshotKind → Option SnapshotKind → OperationRule
rule e p b a = record { entity_type = e; participant = p; before = b; after = a }

-- `operationRules`
unfoldable pub operation_rules : AuditOperation → OperationRule
operation_rules participant_status_changed =
    rule participant required (some SnapshotKind.participant_status)
      (some SnapshotKind.participant_status)
operation_rules action_created = rule action forbidden none (some action_rule)
operation_rules action_updated = rule action forbidden (some action_rule) (some action_rule)
operation_rules action_status_changed =
    rule action forbidden (some SnapshotKind.active_entity) (some SnapshotKind.active_entity)
operation_rules claim_code_batch_generated =
    rule AuditEntityType.claim_code_batch forbidden none (some claim_code_batch_rule)
operation_rules claim_code_bulk_status_changed =
    rule claim_code_bulk_operation forbidden none (some SnapshotKind.claim_code_bulk)
operation_rules claim_code_status_changed =
    rule AuditEntityType.claim_code optional (some claim_code_rule) (some claim_code_rule)
operation_rules reward_created = rule reward forbidden none (some reward_rule)
operation_rules reward_updated = rule reward forbidden (some reward_rule) (some reward_rule)
operation_rules reward_status_changed =
    rule reward forbidden (some SnapshotKind.active_entity) (some SnapshotKind.active_entity)
operation_rules reward_redemption_delivered =
    rule reward_redemption required (some SnapshotKind.delivery_before)
      (some SnapshotKind.delivery_after)
operation_rules reward_redemption_cancelled =
    rule reward_redemption required (some SnapshotKind.cancellation_before)
      (some SnapshotKind.cancellation_after)
operation_rules participant_balance_adjusted =
    rule point_event required (some SnapshotKind.balance_before)
      (some SnapshotKind.balance_adjusted_after)
operation_rules participant_balance_adjustment_reversed =
    rule point_event required (some SnapshotKind.balance_reversal_before)
      (some SnapshotKind.balance_reversal_after)
operation_rules reconciliation_adjustment_confirmed =
    rule AuditEntityType.reconciliation required (some reconciliation_balance)
      (some reconciliation_balance)
operation_rules admin_operator_created =
    rule AuditEntityType.admin_operator forbidden none (some SnapshotKind.admin_operator)
operation_rules admin_operator_updated =
    rule AuditEntityType.admin_operator forbidden (some SnapshotKind.admin_operator)
      (some SnapshotKind.admin_operator)
operation_rules admin_operator_status_changed =
    rule AuditEntityType.admin_operator forbidden (some SnapshotKind.admin_operator)
      (some SnapshotKind.admin_operator)
operation_rules admin_operator_activation_reset =
    rule AuditEntityType.admin_operator forbidden (some SnapshotKind.admin_operator)
      (some SnapshotKind.admin_operator)
operation_rules admin_operator_activated =
    rule AuditEntityType.admin_operator forbidden (some SnapshotKind.admin_operator)
      (some SnapshotKind.admin_operator)
operation_rules participant_password_reset =
    rule participant required (some SnapshotKind.password_reset) (some SnapshotKind.password_reset)

pub record AuditMetadata : Type 0 where
  pub sessions_revoked : Option ℕ
  pub action_id : Option Key
  pub point_event_id : Option Key
  pub point_event_ids : Option (List Key)
  pub original_point_event_id : Option Key
  pub reversal_point_event_id : Option Key
  pub reward_redemption_id : Option Key

abbrev pub no_metadata : AuditMetadata
no_metadata = record {
  sessions_revoked = none;
  action_id = none;
  point_event_id = none;
  point_event_ids = none;
  original_point_event_id = none;
  reversal_point_event_id = none;
  reward_redemption_id = none;
}

-- `AdminOperationContext`: who acts, and under which request.
pub record OperationContext : Type 0 where
  pub actor_admin_id : Key
  pub request_id : Key

-- `AuditActor`: the actor of an event, with the id of the request.
pub data AuditActor : Type 0 where
  administrator : OperationContext → AuditActor
  system : (request_id : Key) → AuditActor

abbrev pub actor_admin : AuditActor → Option Key
actor_admin (administrator context) = some context.actor_admin_id
actor_admin (system _) = none

abbrev pub actor_request : AuditActor → Key
actor_request (administrator context) = context.request_id
actor_request (system request_id) = request_id

-- The actor's type is ADMIN where it has an id, and SYSTEM where it has none.
pub record AuditEvent : Type 0 where
  pub id : Key
  pub actor_admin_id : Option Key
  pub participant_id : Option Key
  pub operation : AuditOperation
  pub entity_type : AuditEntityType
  pub entity_id : Key
  pub reason : Text
  pub before : Option Snapshot
  pub after : Option Snapshot
  pub metadata : AuditMetadata
  pub request_id : Key
  pub created_at : Date
