-- ===== src/Adjustments/Service.antt =====
-- admin-adjustments.service.ts: `adjust` and `reverse`.
use semcomp2026_gameficacao.Prelude.{
  Bool, false, not, ◌||◌, Option, none, some, if◌then◌else◌, ℤ, pos, ◌+ℤ◌, ltb_ℤ, neg_ℤ,
}
use semcomp2026_gameficacao.Text.{trim}
use semcomp2026_gameficacao.Database.{Prisma}
use semcomp2026_gameficacao.Database.Schema.{Key, Fresh, User, PointEvent, admin_adjust}
use semcomp2026_gameficacao.Database.Failure.{
  Result, ok, err, not_found, bad_request, conflict, unique_constraint, participant_not_found,
  point_event_not_found, negative_adjustment, negative_reversal, not_an_adjustment,
  already_reversed,
}
use semcomp2026_gameficacao.Database.Tx.{
  Db, Tx, pure, ◌>>=◌, ◌>>◌, reads, or_throw, reject_if, with_transaction,
}
use semcomp2026_gameficacao.Audit.{AuditInput, record_audit}
use semcomp2026_gameficacao.Audit.Contract.{
  participant_balance_adjusted, participant_balance_adjustment_reversed, balance_before,
  balance_adjusted_after, balance_reversal_before, balance_reversal_after, AuditEvent,
  OperationContext, administrator, BalanceFields, no_metadata,
}
use semcomp2026_gameficacao.Audit.Contract
use semcomp2026_gameficacao.Ledger.{is_some}
use semcomp2026_gameficacao.Adjustments.Repository.{
  AdjustmentEvent, AdjustmentEventInput, lock_participant, lock_point_event,
  find_by_idempotency_key, find_reversal_by_original_id, create_adjustment_point_event,
  update_participant_balance,
}
use semcomp2026_gameficacao.Adjustments.Replay.{
  AdjustmentDto, ReversalDto, Adjustment, map_point_event, map_audit_event, is_eligible_original,
  replay, replay_reversal, kind_of, source_of,
}

abbrev pub overdrawn : User → (points xp : ℤ) → Bool
overdrawn u points xp = ltb_ℤ (u.points +ℤ points) (pos 0) || ltb_ℤ (u.xp +ℤ xp) (pos 0)

-- `{ ...dto, reason: dto.reason.trim() }`
abbrev pub trimmed : AdjustmentDto → AdjustmentDto
trimmed dto = record dto { reason = trim dto.reason }

abbrev pub trimmed_reversal : ReversalDto → ReversalDto
trimmed_reversal dto = record dto { reason = trim dto.reason }

abbrev balance_fields : User → (points xp : ℤ) → Key → BalanceFields
balance_fields u points xp participant_id = record {
  participant_id = participant_id;
  points = points;
  xp = xp;
  role = u.role;
  is_active = u.is_active;
}

abbrev pub adjustment_audit : User → Key → AdjustmentDto → OperationContext → Fresh → AuditInput
adjustment_audit u participant_id input context fresh = record {
  actor = administrator context;
  operation = participant_balance_adjusted;
  entity_type = Contract.AuditEntityType.point_event;
  entity_id = fresh.point_event_id;
  participant_id = some participant_id;
  reason = input.reason;
  before = some (balance_before (balance_fields u u.points u.xp participant_id));
  after = some (
      balance_adjusted_after
        (balance_fields u (u.points +ℤ input.points_delta) (u.xp +ℤ input.xp_delta) participant_id)
        fresh.point_event_id);
  metadata = record no_metadata { point_event_id = some fresh.point_event_id };
}

abbrev pub adjustment_input : Key → AdjustmentDto → OperationContext → Fresh → AdjustmentEventInput
adjustment_input participant_id input context fresh =
    let kind = kind_of input.points_delta input.xp_delta in
    record {
      id = fresh.point_event_id;
      user_id = participant_id;
      points = input.points_delta;
      xp_delta = input.xp_delta;
      kind = kind;
      source = source_of kind;
      actor_admin_id = context.actor_admin_id;
      idempotency_key = input.idempotency_key;
      audit_event_id = fresh.audit_event_id;
      description = input.reason;
      reversed_event_id = none;
      created_at = fresh.now;
    }

abbrev pub reversal_audit : User → PointEvent → ReversalDto → OperationContext → Fresh → AuditInput
reversal_audit u original input context fresh = record {
  actor = administrator context;
  operation = participant_balance_adjustment_reversed;
  entity_type = Contract.AuditEntityType.point_event;
  entity_id = fresh.point_event_id;
  participant_id = some original.user_id;
  reason = input.reason;
  before = some (balance_reversal_before original.user_id u.points u.xp original.id);
  after = some (
      balance_reversal_after original.user_id (u.points +ℤ neg_ℤ original.points)
        (u.xp +ℤ neg_ℤ original.xp_delta) fresh.point_event_id original.id);
  metadata = record no_metadata {
    original_point_event_id = some original.id;
    reversal_point_event_id = some fresh.point_event_id;
  };
}

abbrev pub reversal_input :
    PointEvent → ReversalDto → OperationContext → Fresh → AdjustmentEventInput
reversal_input original input context fresh = record {
  id = fresh.point_event_id;
  user_id = original.user_id;
  points = neg_ℤ original.points;
  xp_delta = neg_ℤ original.xp_delta;
  kind = kind_of (neg_ℤ original.points) (neg_ℤ original.xp_delta);
  source = admin_adjust;
  actor_admin_id = context.actor_admin_id;
  idempotency_key = input.idempotency_key;
  audit_event_id = fresh.audit_event_id;
  description = input.reason;
  reversed_event_id = some original.id;
  created_at = fresh.now;
}

abbrev pub posted : User → User → PointEvent → AuditEvent → Adjustment
posted participant updated event audit_event = record {
  before = record { points = participant.points; xp = participant.xp };
  after = record { points = updated.points; xp = updated.xp };
  point_event = map_point_event event;
  audit_event = map_audit_event audit_event;
  replayed = false;
}

module _ ⦃P : Prisma⦄ where
  abbrev pub returns : Result Adjustment → Tx Adjustment
  returns (ok r) db = ok (r, db)
  returns (err e) db = err e

  unfoldable pub adjust_new : User → Key → AdjustmentDto → OperationContext → Fresh → Tx Adjustment
  adjust_new participant id input context fresh = do
    reject_if (overdrawn participant input.points_delta input.xp_delta)
        (bad_request negative_adjustment)
    updated ← update_participant_balance id input.points_delta input.xp_delta
    audit_event ←
        record_audit fresh.audit_event_id fresh.now
          (adjustment_audit participant id input context fresh)
    event ← create_adjustment_point_event (adjustment_input id input context fresh)
    pure (posted participant updated event audit_event)

  abbrev adjust_or_replay :
      Option AdjustmentEvent → User → Key → AdjustmentDto → OperationContext → Fresh → Tx Adjustment
  adjust_or_replay none participant id input context fresh =
      adjust_new participant id input context fresh
  adjust_or_replay (some existing) participant id input context fresh =
      returns (replay existing id input context)

  unfoldable pub adjust_tx : Key → AdjustmentDto → OperationContext → Fresh → Tx Adjustment
  adjust_tx id input context fresh = do
    found ← reads (lock_participant id)
    participant ← or_throw found (not_found participant_not_found)
    existing ← reads (find_by_idempotency_key input.idempotency_key)
    adjust_or_replay existing participant id input context fresh

  -- After a violated unique constraint: the request that came first answers this one.
  abbrev pub winner_or :
      Option AdjustmentEvent
      → (AdjustmentEvent → Result Adjustment)
      → Result Adjustment
      → Result Adjustment
  winner_or none answer failed = failed
  winner_or (some winner) answer failed = answer winner

  abbrev pub recover : (Db → Result Adjustment) → Result Adjustment × Db → Result Adjustment × Db
  recover answer (ok r, db) = (ok r, db)
  recover answer (err unique_constraint, db) = (answer db, db)
  recover answer (err e, db) = (err e, db)

  unfoldable pub adjust :
      Key → AdjustmentDto → OperationContext → Fresh → Db → Result Adjustment × Db
  adjust id dto context fresh db =
      let input = trimmed dto in
      recover
        (λ now.
          winner_or (find_by_idempotency_key input.idempotency_key now)
            (λ winner. replay winner id input context) (err unique_constraint))
        (with_transaction (adjust_tx id input context fresh) db)

  unfoldable pub reverse_new : PointEvent → ReversalDto → OperationContext → Fresh → Tx Adjustment
  reverse_new original input context fresh = do
    found ← reads (lock_participant original.user_id)
    participant ← or_throw found (not_found participant_not_found)
    reject_if (overdrawn participant (neg_ℤ original.points) (neg_ℤ original.xp_delta))
        (bad_request negative_reversal)
    updated ←
        update_participant_balance original.user_id (neg_ℤ original.points)
          (neg_ℤ original.xp_delta)
    audit_event ←
        record_audit fresh.audit_event_id fresh.now
          (reversal_audit participant original input context fresh)
    event ← create_adjustment_point_event (reversal_input original input context fresh)
    pure (posted participant updated event audit_event)

  abbrev pub reverse_or_replay :
      Option AdjustmentEvent
      → AdjustmentEvent
      → Key
      → ReversalDto
      → OperationContext
      → Fresh
      → Tx Adjustment
  reverse_or_replay none original id input context fresh = do
    reject_if (is_some original.reversal) (conflict already_reversed)
    reverse_new original.event input context fresh
  reverse_or_replay (some existing) original id input context fresh =
      returns (replay_reversal existing id input context)

  unfoldable pub reverse_tx : Key → ReversalDto → OperationContext → Fresh → Tx Adjustment
  reverse_tx id input context fresh = do
    found ← reads (lock_point_event id)
    original ← or_throw found (not_found point_event_not_found)
    reject_if (not (is_eligible_original original)) (conflict not_an_adjustment)
    existing ← reads (find_by_idempotency_key input.idempotency_key)
    reverse_or_replay existing original id input context fresh

  unfoldable pub reverse :
      Key → ReversalDto → OperationContext → Fresh → Db → Result Adjustment × Db
  reverse id dto context fresh db =
      let input = trimmed_reversal dto in
      recover
        (λ now.
          winner_or (find_by_idempotency_key input.idempotency_key now)
            (λ winner. replay_reversal winner id input context)
            (if is_some (find_reversal_by_original_id id now)
              then err (conflict already_reversed)
              else err unique_constraint))
        (with_transaction (reverse_tx id input context fresh) db)
