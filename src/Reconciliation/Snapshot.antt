-- ===== src/Reconciliation/Snapshot.antt =====
-- admin-reconciliation.service.ts: the snapshot of a row and the amounts of a compensation.
use semcomp2026_gameficacao.Prelude.{
  Bool, true, false, not, ◌&&◌, Option, some, List, [], ◌∷◌, ℤ, pos, ◌-ℤ◌, ltb_ℤ, eqb_ℤ,
  if◌then◌else◌, ◌==◌, ℕ,
}
use semcomp2026_gameficacao.Database.Schema.{PointEventKind, credit, debit}
use semcomp2026_gameficacao.Database.Failure.{Result, ok, err, conflict, invalid_idempotent_record}
use semcomp2026_gameficacao.Audit.Contract.{ReconciliationFields, Snapshot, reconciliation}
use semcomp2026_gameficacao.Reconciliation.Repository.{ReconciliationRow}

pub data ReconciliationStatus : Type 0 where
  consistent divergent : ReconciliationStatus

-- `ReconciliationSnapshot`
pub record ReconciliationSnapshot : Type 0 where
  pub fields : ReconciliationFields
  pub status : ReconciliationStatus

abbrev pub status_of : (points_difference xp_difference : ℤ) → ReconciliationStatus
status_of points xp = if eqb_ℤ points (pos 0) && eqb_ℤ xp (pos 0) then consistent else divergent

abbrev pub is_consistent : ReconciliationStatus → Bool
is_consistent consistent = true
is_consistent divergent = false

-- `reconciliationSnapshot`
abbrev pub reconciliation_snapshot : ReconciliationRow → ReconciliationSnapshot
reconciliation_snapshot row =
    let points = row.stored_points -ℤ row.ledger_points in
    let xp = row.stored_xp -ℤ row.ledger_xp in
    record {
      fields = record {
        participant_id = row.participant_id;
        stored_points = row.stored_points;
        stored_xp = row.stored_xp;
        ledger_points = row.ledger_points;
        ledger_xp = row.ledger_xp;
        points_difference = points;
        xp_difference = xp;
      };
      status = status_of points xp;
    }

-- `pointEventKind`
abbrev pub point_event_kind : (points xp : ℤ) → PointEventKind
point_event_kind points xp =
    let direction = if eqb_ℤ points (pos 0) then xp else points in
    if ltb_ℤ direction (pos 0) then debit else credit

pub record Delta : Type 0 where
  pub points : ℤ
  pub xp_delta : ℤ
  pub kind : PointEventKind

-- `Math.sign`, as 0, 1 and 2 for -1, 0 and 1.
abbrev pub sign : ℤ → ℕ
sign z = if ltb_ℤ z (pos 0) then 0 else if eqb_ℤ z (pos 0) then 1 else 2

-- `compensationDeltas`
unfoldable pub compensation_deltas : (points xp : ℤ) → List Delta
compensation_deltas points xp =
    if not (eqb_ℤ points (pos 0)) && not (eqb_ℤ xp (pos 0)) && not (sign points == sign xp)
    then record { points = points; xp_delta = pos 0; kind = point_event_kind points (pos 0) }
      ∷ record { points = pos 0; xp_delta = xp; kind = point_event_kind (pos 0) xp }
      ∷ []
    else record { points = points; xp_delta = xp; kind = point_event_kind points xp } ∷ []

-- `readReconciliationSnapshot`: only a snapshot of a reconciliation has all its fields.
abbrev pub read_reconciliation_snapshot : Option Snapshot → Result ReconciliationSnapshot
read_reconciliation_snapshot (some (reconciliation f ids)) =
    ok (record { fields = f; status = status_of f.points_difference f.xp_difference })
read_reconciliation_snapshot _ = err (conflict invalid_idempotent_record)
