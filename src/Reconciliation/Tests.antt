-- ===== src/Reconciliation/Tests.antt =====
-- A participant whose stored balance was changed behind the ledger.
use semcomp2026_gameficacao.Prelude.{
  ◌≡◌, ◌==◌, refl, false, some, [], ◌∷◌, pos, negsuc, ◌+ℤ◌, ◌-ℤ◌, length, All,
}
use semcomp2026_gameficacao.Text.{text, trim}
use semcomp2026_gameficacao.Database.Memory.{memory}
use semcomp2026_gameficacao.Database.Schema.{Key, Fresh, User, credit, debit, admin_adjust}
use semcomp2026_gameficacao.Database.Failure.{err, conflict, already_reconciled}
use semcomp2026_gameficacao.Database.Tx.{Db, ◌>>=◌}
use semcomp2026_gameficacao.Audit.{record_audit, write_audit, valid_contract, valid_snapshot}
use semcomp2026_gameficacao.Audit.Contract.{operation_rules, reconciliation_adjustment_confirmed}
use semcomp2026_gameficacao.Ledger.{create_point_event}
use semcomp2026_gameficacao.Ledger.Sums.{ledger_points, ledger_xp}
use semcomp2026_gameficacao.Samples.{ana, start, admin_context}
use semcomp2026_gameficacao.Pagination.{PaginationResponse, paginate}
use semcomp2026_gameficacao.Reconciliation.Repository.{lock_reconciliation}
use semcomp2026_gameficacao.Reconciliation.Snapshot.{compensation_deltas, consistent, divergent}
use semcomp2026_gameficacao.Reconciliation.Replay.{ConfirmDto, Confirmation}
use semcomp2026_gameficacao.Reconciliation.Service.{
  confirm, confirm_tx, confirm_new, create_compensations,
}
use semcomp2026_gameficacao.Reconciliation.Listing.{ReconciliationResponse, serialize, row_of_user}
use semcomp2026_gameficacao.Reconciliation.Confirmed.{confirm-reconciled, confirm-consistent}
use semcomp2026_gameficacao.Reconciliation.Deltas.{
  compensation_deltas_lem, deltas_points, deltas_xp, IsDirected,
}

abbrev moved : User
moved = record ana { points = pos 50; xp = negsuc 9 }

abbrev strayed : Db ⦃P = memory⦄
strayed = record start { users = (1, moved) ∷ [] }

abbrev repair : ConfirmDto
repair = record { reason = text " Saldo importado da planilha "; idempotency_key = 800 }

abbrev repaired : Confirmation
repaired = record {
  before = record {
    fields = record {
      participant_id = 1;
      stored_points = pos 50;
      stored_xp = negsuc 9;
      ledger_points = pos 0;
      ledger_xp = pos 0;
      points_difference = pos 50;
      xp_difference = negsuc 9;
    };
    status = divergent;
  };
  after = record {
    fields = record {
      participant_id = 1;
      stored_points = pos 50;
      stored_xp = negsuc 9;
      ledger_points = pos 50;
      ledger_xp = negsuc 9;
      points_difference = pos 0;
      xp_difference = pos 0;
    };
    status = consistent;
  };
  point_events =
      record {
        id = 400;
        points_delta = pos 50;
        xp_delta = pos 0;
        kind = credit;
        source = admin_adjust;
        created_at = 402;
      }
      ∷ record {
        id = 401;
        points_delta = pos 0;
        xp_delta = negsuc 9;
        kind = debit;
        source = admin_adjust;
        created_at = 402;
      }
      ∷ [];
  audit_event = record {
    id = 403;
    operation = reconciliation_adjustment_confirmed;
    request_id = 5;
    created_at = 402;
  };
  replayed = false;
}

abbrev drawn : Fresh
drawn = record { point_event_id = 400; entity_id = 401; audit_event_id = 403; now = 402 }

abbrev settled : Db ⦃P = memory⦄
settled = (confirm ⦃P = memory⦄ 1 repair admin_context drawn strayed).1

confirm-reconciled_example :
    (settled.users ≡ strayed.users)
    × ((u : User) × (memory.find_unique 1 strayed.users ≡ some u)
        × (u.points ≡ ledger_points 1 (memory.find_many settled.point_events))
        × (u.xp ≡ ledger_xp 1 (memory.find_many settled.point_events)))
    × ((j : Key)
        → (1 == j) ≡ false
        → (ledger_points j (memory.find_many settled.point_events)
            ≡ ledger_points j (memory.find_many strayed.point_events))
          × (ledger_xp j (memory.find_many settled.point_events)
              ≡ ledger_xp j (memory.find_many strayed.point_events)))
unfolding confirm confirm_tx confirm_new create_compensations lock_reconciliation create_point_event
    record_audit write_audit valid_contract valid_snapshot operation_rules trim compensation_deltas
    ◌>>=◌ ◌-ℤ◌ ◌+ℤ◌
confirm-reconciled_example =
    confirm-reconciled ⦃P = memory⦄ 1 repair admin_context drawn strayed repaired refl refl

confirm-consistent_example :
    confirm ⦃P = memory⦄ 1 repair admin_context drawn start
    ≡ (err (conflict already_reconciled), start)
confirm-consistent_example =
    confirm-consistent ⦃P = memory⦄ 1 repair admin_context drawn start ana refl refl refl refl refl
      refl

compensation_deltas_lem_example :
    (deltas_points (compensation_deltas (pos 50) (negsuc 9)) ≡ pos 50)
    × (deltas_xp (compensation_deltas (pos 50) (negsuc 9)) ≡ negsuc 9)
    × All IsDirected (compensation_deltas (pos 50) (negsuc 9))
    × (length (compensation_deltas (pos 50) (negsuc 9)) ≡ 2)
compensation_deltas_lem_example = compensation_deltas_lem (pos 50) (negsuc 9)

abbrev one_page : PaginationResponse ReconciliationResponse
one_page = paginate (serialize (row_of_user ⦃P = memory⦄ strayed moved) ∷ []) 1 1 20
