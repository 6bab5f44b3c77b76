-- ===== src/Adjustments/Replay.antt =====
-- admin-adjustments.service.ts: what a request gives and gets, and the replay of a used idempotency
-- key.
use semcomp2026_gameficacao.Prelude.{
  Bool, true, false, not, ◌&&◌, ◌||◌, Option, none, some, ◌==◌, if◌then◌else◌, ℤ, pos, ltb_ℤ, eqb_ℤ,
}
use semcomp2026_gameficacao.Text.{Text, trim, text_eq}
use semcomp2026_gameficacao.Database.Schema.{
  Key, Date, PointEvent, PointEventKind, PointEventSource, credit, debit, admin_grant, admin_adjust,
}
use semcomp2026_gameficacao.Database.Failure.{Result, ok, err, conflict, idempotency_conflict}
use semcomp2026_gameficacao.Audit.Contract.{
  AuditOperation, participant_balance_adjusted, participant_balance_adjustment_reversed, Snapshot,
  balance_before, balance_adjusted_after, balance_reversal_before, balance_reversal_after,
  AuditEvent, OperationContext,
}
use semcomp2026_gameficacao.Ledger.{same_id, is_some}
use semcomp2026_gameficacao.Adjustments.Repository.{AdjustmentEvent}

-- `CreateParticipantAdjustmentDto`
pub record AdjustmentDto : Type 0 where
  pub points_delta : ℤ
  pub xp_delta : ℤ
  pub reason : Text
  pub idempotency_key : Key

-- `ReversePointEventDto`
pub record ReversalDto : Type 0 where
  pub reason : Text
  pub idempotency_key : Key

pub record Balance : Type 0 where
  pub points : ℤ
  pub xp : ℤ

-- `mapPointEvent`
pub record EventView : Type 0 where
  pub id : Key
  pub points_delta : ℤ
  pub xp_delta : ℤ
  pub kind : PointEventKind
  pub source : PointEventSource
  pub reversal_of_point_event_id : Option Key
  pub created_at : Date

abbrev pub map_point_event : PointEvent → EventView
map_point_event e = record {
  id = e.id;
  points_delta = e.points;
  xp_delta = e.xp_delta;
  kind = e.kind;
  source = e.source;
  reversal_of_point_event_id = e.reversed_event_id;
  created_at = e.created_at;
}

-- `mapAuditEvent`
pub record AuditView : Type 0 where
  pub id : Key
  pub operation : AuditOperation
  pub request_id : Key
  pub created_at : Date

abbrev pub map_audit_event : AuditEvent → AuditView
map_audit_event e = record {
  id = e.id;
  operation = e.operation;
  request_id = e.request_id;
  created_at = e.created_at;
}

pub record Adjustment : Type 0 where
  pub before : Balance
  pub after : Balance
  pub point_event : EventView
  pub audit_event : AuditView
  pub replayed : Bool

abbrev pub is_adjustment : AuditOperation → Bool
is_adjustment participant_balance_adjusted = true
is_adjustment _ = false

abbrev pub is_reversal : AuditOperation → Bool
is_reversal participant_balance_adjustment_reversed = true
is_reversal _ = false

abbrev pub is_admin_source : PointEventSource → Bool
is_admin_source admin_grant = true
is_admin_source admin_adjust = true
is_admin_source _ = false

abbrev pub has_operation : (AuditOperation → Bool) → Option AuditEvent → Bool
has_operation test none = false
has_operation test (some a) = test a.operation

abbrev pub is_text : Text → Option Text → Bool
is_text t none = false
is_text t (some d) = text_eq d t

-- `isEligibleOriginal`
abbrev pub is_eligible_original : AdjustmentEvent → Bool
is_eligible_original original =
    not (is_some original.event.reversed_event_id)
    && is_some original.event.actor_admin_id
    && is_admin_source original.event.source
    && has_operation is_adjustment original.audit_event

-- `readBalance`: the snapshots that hold both numbers.
abbrev pub read_balance : Option Snapshot → Option Balance
read_balance (some (balance_before b)) = some (record { points = b.points; xp = b.xp })
read_balance (some (balance_adjusted_after b _)) = some (record { points = b.points; xp = b.xp })
read_balance (some (balance_reversal_before _ points xp _)) =
    some (record { points = points; xp = xp })
read_balance (some (balance_reversal_after _ points xp _ _)) =
    some (record { points = points; xp = xp })
read_balance _ = none

abbrev replay_balances :
    Option Balance → Option Balance → PointEvent → AuditEvent → Result Adjustment
replay_balances (some before) (some after) e a = ok (record {
  before = before;
  after = after;
  point_event = map_point_event e;
  audit_event = map_audit_event a;
  replayed = true;
})
replay_balances _ _ e a = err (conflict idempotency_conflict)

abbrev replay_identical : PointEvent → Option AuditEvent → (AuditEvent → Bool) → Result Adjustment
replay_identical e none identical = err (conflict idempotency_conflict)
replay_identical e (some a) identical =
    if identical a
    then replay_balances (read_balance a.before) (read_balance a.after) e a
    else err (conflict idempotency_conflict)

-- `replay`
abbrev pub replay : AdjustmentEvent → Key → AdjustmentDto → OperationContext → Result Adjustment
replay found participant_id input context =
    let event = found.event in
    replay_identical event found.audit_event λ a.
      is_adjustment a.operation
      && event.user_id == participant_id
      && eqb_ℤ event.points input.points_delta
      && eqb_ℤ event.xp_delta input.xp_delta
      && is_text (trim input.reason) event.description
      && text_eq a.reason (trim input.reason)
      && same_id event.actor_admin_id (some context.actor_admin_id)

-- `replayReversal`
abbrev pub replay_reversal :
    AdjustmentEvent → Key → ReversalDto → OperationContext → Result Adjustment
replay_reversal found original_id input context =
    let event = found.event in
    replay_identical event found.audit_event λ a.
      is_reversal a.operation
      && same_id event.reversed_event_id (some original_id)
      && is_text (trim input.reason) event.description
      && text_eq a.reason (trim input.reason)
      && same_id event.actor_admin_id (some context.actor_admin_id)

abbrev pub kind_of : (points xp : ℤ) → PointEventKind
kind_of points xp = if ltb_ℤ points (pos 0) || ltb_ℤ xp (pos 0) then debit else credit

abbrev pub source_of : PointEventKind → PointEventSource
source_of credit = admin_grant
source_of debit = admin_adjust
