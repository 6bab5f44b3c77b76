-- ===== src/Reconciliation/Replay.antt =====
-- admin-reconciliation.service.ts: what a confirmation gives and gets, and the replay of a used
-- idempotency key.
use semcomp2026_gameficacao.Prelude.{
  Bool, true, false, not, ◌&&◌, ◌||◌, Option, none, some, List, [], ◌∷◌, map, filter, ◌==◌,
  if◌then◌else◌, ℤ, pos, ◌+ℤ◌, eqb_ℤ,
}
use semcomp2026_gameficacao.Text.{Text, text_eq}
use semcomp2026_gameficacao.Database.Schema.{
  Key, Date, PointEvent, PointEventKind, PointEventSource, admin_adjust,
}
use semcomp2026_gameficacao.Database.Failure.{Result, ok, err, conflict, idempotency_conflict}
use semcomp2026_gameficacao.Audit.Contract.{
  AuditOperation, reconciliation_adjustment_confirmed, AuditEvent, OperationContext,
}
use semcomp2026_gameficacao.Ledger.{same_id}
use semcomp2026_gameficacao.Adjustments.Replay.{AuditView, map_audit_event, is_text}
use semcomp2026_gameficacao.Reconciliation.Repository.{CompensationEvent}
use semcomp2026_gameficacao.Reconciliation.Snapshot.{
  ReconciliationSnapshot, read_reconciliation_snapshot,
}

-- `ConfirmReconciliationDto`
pub record ConfirmDto : Type 0 where
  pub reason : Text
  pub idempotency_key : Key

-- `mapCompensationEvent`; its origin is always RECONCILIATION_COMPENSATION.
pub record CompensationView : Type 0 where
  pub id : Key
  pub points_delta : ℤ
  pub xp_delta : ℤ
  pub kind : PointEventKind
  pub source : PointEventSource
  pub created_at : Date

abbrev pub map_compensation_event : PointEvent → CompensationView
map_compensation_event e = record {
  id = e.id;
  points_delta = e.points;
  xp_delta = e.xp_delta;
  kind = e.kind;
  source = e.source;
  created_at = e.created_at;
}

-- The reply: `pointEvent` is the first of `pointEvents`.
pub record Confirmation : Type 0 where
  pub before : ReconciliationSnapshot
  pub after : ReconciliationSnapshot
  pub point_events : List CompensationView
  pub audit_event : AuditView
  pub replayed : Bool

-- `confirmationResponse`
abbrev pub confirmation_response :
    (before after : ReconciliationSnapshot) → List PointEvent → AuditEvent → Bool → Confirmation
confirmation_response before after events audit_event replayed = record {
  before = before;
  after = after;
  point_events = map map_compensation_event events;
  audit_event = map_audit_event audit_event;
  replayed = replayed;
}

abbrev pub is_confirmation : AuditOperation → Bool
is_confirmation reconciliation_adjustment_confirmed = true
is_confirmation _ = false

abbrev is_adjustment_source : PointEventSource → Bool
is_adjustment_source admin_adjust = true
is_adjustment_source _ = false

-- `identical`, of an event that has an audit event.
abbrev pub is_identical : PointEvent → AuditEvent → Key → ConfirmDto → OperationContext → Bool
is_identical event a participant_id input context =
    is_confirmation a.operation
    && event.user_id == participant_id
    && is_adjustment_source event.source
    && is_text input.reason event.description
    && text_eq a.reason input.reason
    && same_id event.actor_admin_id (some context.actor_admin_id)

unfoldable pub points_total : List PointEvent → ℤ
points_total [] = pos 0
points_total (e ∷ es) = e.points +ℤ points_total es

unfoldable pub xp_total : List PointEvent → ℤ
xp_total [] = pos 0
xp_total (e ∷ es) = e.xp_delta +ℤ xp_total es

abbrev is_other : PointEvent → PointEvent → Bool
is_other event related = not (related.id == event.id)

abbrev replay_total :
    ReconciliationSnapshot
    → ReconciliationSnapshot
    → List PointEvent
    → AuditEvent
    → Result Confirmation
replay_total before after events a =
    if not (eqb_ℤ (points_total events) before.fields.points_difference)
      || not (eqb_ℤ (xp_total events) before.fields.xp_difference)
    then err (conflict idempotency_conflict)
    else ok (confirmation_response before after events a true)

abbrev replay_snapshots :
    Result ReconciliationSnapshot
    → Result ReconciliationSnapshot
    → List PointEvent
    → AuditEvent
    → Result Confirmation
replay_snapshots (err e) after events a = err e
replay_snapshots (ok before) (err e) events a = err e
replay_snapshots (ok before) (ok after) events a = replay_total before after events a

-- `replay`; `related` is `findByAuditEventId`.
abbrev replay_audited :
    PointEvent
    → Option AuditEvent
    → Key
    → ConfirmDto
    → OperationContext
    → (related : Key → List CompensationEvent) → Result Confirmation
replay_audited event none participant_id input context related = err (conflict idempotency_conflict)
replay_audited event (some a) participant_id input context related =
    if is_identical event a participant_id input context
    then replay_snapshots (read_reconciliation_snapshot a.before)
        (read_reconciliation_snapshot a.after)
        (event ∷ filter (is_other event) (map (λ (r : CompensationEvent). r.event) (related a.id)))
        a
    else err (conflict idempotency_conflict)

unfoldable pub replay_confirmation :
    CompensationEvent
    → Key
    → ConfirmDto
    → OperationContext
    → (related : Key → List CompensationEvent) → Result Confirmation
unfolding points_total xp_total
replay_confirmation found participant_id input context related =
    replay_audited found.event found.audit_event participant_id input context related
