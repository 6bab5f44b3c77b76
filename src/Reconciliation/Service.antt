-- ===== src/Reconciliation/Service.antt =====
-- admin-reconciliation.service.ts: `confirm`.
use semcomp2026_gameficacao.Prelude.{false, Option, none, some, List, [], ◌∷◌, map, pos, ◌+ℤ◌}
use semcomp2026_gameficacao.Text.{trim}
use semcomp2026_gameficacao.Database.{Prisma}
use semcomp2026_gameficacao.Database.Schema.{Key, Fresh, PointEvent}
use semcomp2026_gameficacao.Database.Failure.{
  Result, ok, err, not_found, conflict, unique_constraint, participant_not_found,
  already_reconciled,
}
use semcomp2026_gameficacao.Database.Tx.{
  Db, Tx, pure, ◌>>=◌, ◌>>◌, reads, or_throw, reject_if, with_transaction,
}
use semcomp2026_gameficacao.Audit.{AuditInput, record_audit}
use semcomp2026_gameficacao.Audit.Contract.{
  reconciliation_adjustment_confirmed, reconciliation, OperationContext, administrator, no_metadata,
}
use semcomp2026_gameficacao.Audit.Contract
use semcomp2026_gameficacao.Reconciliation.Repository.{
  ReconciliationRow, CompensationEvent, CompensationInput, lock_reconciliation,
  find_compensation_by_key, find_by_audit_event_id, create_compensation_event,
}
use semcomp2026_gameficacao.Reconciliation.Snapshot.{
  ReconciliationSnapshot, consistent, is_consistent, reconciliation_snapshot, Delta,
  compensation_deltas,
}
use semcomp2026_gameficacao.Reconciliation.Replay.{
  ConfirmDto, Confirmation, confirmation_response, replay_confirmation,
}

pub record Compensation : Type 0 where
  pub id : Key
  pub delta : Delta

-- `{ id: randomUUID(), ...delta }`: there are at most two deltas.
abbrev pub with_ids : List Key → List Delta → List Compensation
with_ids (id ∷ ids) (d ∷ ds) = record { id = id; delta = d } ∷ with_ids ids ds
with_ids _ _ = []

abbrev pub compensations : ReconciliationSnapshot → Fresh → List Compensation
compensations before fresh =
    with_ids (fresh.point_event_id ∷ fresh.entity_id ∷ [])
      (compensation_deltas before.fields.points_difference before.fields.xp_difference)

abbrev pub compensated : ReconciliationSnapshot → Key → ReconciliationSnapshot
compensated before participant_id =
    let f = before.fields in
    record {
      fields = record {
        participant_id = participant_id;
        stored_points = f.stored_points;
        stored_xp = f.stored_xp;
        ledger_points = f.ledger_points +ℤ f.points_difference;
        ledger_xp = f.ledger_xp +ℤ f.xp_difference;
        points_difference = pos 0;
        xp_difference = pos 0;
      };
      status = consistent;
    }

abbrev pub trimmed_confirm : ConfirmDto → ConfirmDto
trimmed_confirm dto = record dto { reason = trim dto.reason }

abbrev pub confirmation_audit :
    ReconciliationSnapshot
    → ReconciliationSnapshot
    → List Compensation
    → Key
    → ConfirmDto
    → OperationContext
    → AuditInput
confirmation_audit before after parts participant_id input context =
    let ids = map (λ (c : Compensation). c.id) parts in
    record {
      actor = administrator context;
      operation = reconciliation_adjustment_confirmed;
      entity_type = Contract.AuditEntityType.reconciliation;
      entity_id = participant_id;
      participant_id = some participant_id;
      reason = input.reason;
      before = some (reconciliation before.fields none);
      after = some (reconciliation after.fields (some ids));
      metadata = record no_metadata { point_event_ids = some ids };
    }

abbrev pub compensation_input :
    Compensation → Option Key → Key → ConfirmDto → OperationContext → Fresh → CompensationInput
compensation_input c key participant_id input context fresh = record {
  id = c.id;
  user_id = participant_id;
  points = c.delta.points;
  xp_delta = c.delta.xp_delta;
  kind = c.delta.kind;
  actor_admin_id = context.actor_admin_id;
  idempotency_key = key;
  audit_event_id = fresh.audit_event_id;
  description = input.reason;
  created_at = fresh.now;
}

module _ ⦃P : Prisma⦄ where
  -- The `for`: only the first event has the key.
  unfoldable pub create_compensations :
      List Compensation
      → Option Key
      → Key
      → ConfirmDto
      → OperationContext
      → Fresh
      → Tx (List PointEvent)
  create_compensations [] key participant_id input context fresh = pure []
  create_compensations (c ∷ cs) key participant_id input context fresh = do
    event ← create_compensation_event (compensation_input c key participant_id input context fresh)
    events ← create_compensations cs none participant_id input context fresh
    pure (event ∷ events)

  unfoldable pub confirm_new :
      ReconciliationSnapshot → Key → ConfirmDto → OperationContext → Fresh → Tx Confirmation
  unfolding create_compensations
  confirm_new before participant_id input context fresh = do
    reject_if (is_consistent before.status) (conflict already_reconciled)
    let parts = compensations before fresh
    let after = compensated before participant_id
    audit_event ←
        record_audit fresh.audit_event_id fresh.now
          (confirmation_audit before after parts participant_id input context)
    events ←
        create_compensations parts (some input.idempotency_key) participant_id input context fresh
    pure (confirmation_response before after events audit_event false)

  abbrev pub answers : Result Confirmation → Tx Confirmation
  answers (ok r) db = ok (r, db)
  answers (err e) db = err e

  abbrev pub replay_in :
      Db → CompensationEvent → Key → ConfirmDto → OperationContext → Result Confirmation
  replay_in db found participant_id input context =
      replay_confirmation found participant_id input context (λ id. find_by_audit_event_id id db)

  abbrev pub confirm_or_replay :
      Option CompensationEvent
      → ReconciliationRow
      → Key
      → ConfirmDto
      → OperationContext
      → Fresh
      → Tx Confirmation
  confirm_or_replay none row participant_id input context fresh db =
      confirm_new (reconciliation_snapshot row) participant_id input context fresh db
  confirm_or_replay (some existing) row participant_id input context fresh db =
      answers (replay_in db existing participant_id input context) db

  unfoldable pub confirm_tx : Key → ConfirmDto → OperationContext → Fresh → Tx Confirmation
  confirm_tx participant_id input context fresh = do
    locked ← lock_reconciliation participant_id
    row ← or_throw locked (not_found participant_not_found)
    existing ← reads (find_compensation_by_key input.idempotency_key)
    confirm_or_replay existing row participant_id input context fresh

  -- After a violated idempotency key: the request that came first answers this one.
  abbrev pub winner_answers :
      Option CompensationEvent → Key → ConfirmDto → OperationContext → Db → Result Confirmation
  winner_answers none participant_id input context db = err unique_constraint
  winner_answers (some winner) participant_id input context db =
      replay_in db winner participant_id input context

  abbrev pub recover_confirm :
      (Db → Result Confirmation) → Result Confirmation × Db → Result Confirmation × Db
  recover_confirm answer (ok r, db) = (ok r, db)
  recover_confirm answer (err unique_constraint, db) = (answer db, db)
  recover_confirm answer (err e, db) = (err e, db)

  unfoldable pub confirm :
      Key → ConfirmDto → OperationContext → Fresh → Db → Result Confirmation × Db
  confirm participant_id dto context fresh db =
      let input = trimmed_confirm dto in
      recover_confirm
        (λ now.
          winner_answers (find_compensation_by_key input.idempotency_key now) participant_id input
            context now)
        (with_transaction (confirm_tx participant_id input context fresh) db)
