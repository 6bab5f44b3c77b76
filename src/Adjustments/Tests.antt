-- ===== src/Adjustments/Tests.antt =====
-- An adjustment of the sample participant, sent twice, and reversed.
use semcomp2026_gameficacao.Prelude.{refl, none, some, pos, neg_ℤ, ◌≡◌, ◌+ℤ◌, ◌-ℤ◌, false}
use semcomp2026_gameficacao.Text.{text, trim}
use semcomp2026_gameficacao.Database.Memory.{memory}
use semcomp2026_gameficacao.Database.Schema.{credit, debit, admin_grant, admin_adjust}
use semcomp2026_gameficacao.Database.Failure.{ok, err, conflict, already_reversed}
use semcomp2026_gameficacao.Database.Tx.{Db, ◌>>=◌}
use semcomp2026_gameficacao.Audit.{record_audit, write_audit, valid_contract, valid_snapshot}
use semcomp2026_gameficacao.Audit.Contract.{
  operation_rules, participant_balance_adjusted, participant_balance_adjustment_reversed,
}
use semcomp2026_gameficacao.Ledger.{create_point_event, increment_balance}
use semcomp2026_gameficacao.Samples.{start, fresh_from, admin_context}
use semcomp2026_gameficacao.Adjustments.Replay.{AdjustmentDto, ReversalDto, Adjustment}
use semcomp2026_gameficacao.Adjustments.Service.{
  adjust, adjust_tx, adjust_new, reverse, reverse_tx, reverse_new,
}
use semcomp2026_gameficacao.Adjustments.Replayed.{replayed, adjust-adjust}
use semcomp2026_gameficacao.Adjustments.Undone.{adjust-reverse}
use semcomp2026_gameficacao.Adjustments.ReversedOnce.{reverse-reverse}

abbrev bonus : AdjustmentDto
bonus = record {
  points_delta = pos 15;
  xp_delta = pos 5;
  reason = text " Ajudou na mesa de som ";
  idempotency_key = 700;
}

abbrev mistake : ReversalDto
mistake = record { reason = text "Lançado em dobro"; idempotency_key = 701 }

abbrev bonus_reply : Adjustment
bonus_reply = record {
  before = record { points = pos 0; xp = pos 0 };
  after = record { points = pos 15; xp = pos 5 };
  point_event = record {
    id = 200;
    points_delta = pos 15;
    xp_delta = pos 5;
    kind = credit;
    source = admin_grant;
    reversal_of_point_event_id = none;
    created_at = 200;
  };
  audit_event = record {
    id = 200;
    operation = participant_balance_adjusted;
    request_id = 5;
    created_at = 200;
  };
  replayed = false;
}

abbrev mistake_reply : Adjustment
mistake_reply = record {
  before = record { points = pos 15; xp = pos 5 };
  after = record { points = pos 0; xp = pos 0 };
  point_event = record {
    id = 201;
    points_delta = neg_ℤ (pos 15);
    xp_delta = neg_ℤ (pos 5);
    kind = debit;
    source = admin_adjust;
    reversal_of_point_event_id = some 200;
    created_at = 201;
  };
  audit_event = record {
    id = 201;
    operation = participant_balance_adjustment_reversed;
    request_id = 5;
    created_at = 201;
  };
  replayed = false;
}

adjust-adjust_example :
    adjust ⦃P = memory⦄ 1 bonus admin_context
      (fresh_from 300)
      (adjust ⦃P = memory⦄ 1 bonus admin_context (fresh_from 200) start).1
    ≡ (
      ok (replayed bonus_reply),
      (adjust ⦃P = memory⦄ 1 bonus admin_context (fresh_from 200) start).1,
    )
unfolding adjust adjust_tx adjust_new create_point_event increment_balance record_audit write_audit
    valid_contract valid_snapshot operation_rules trim ◌>>=◌ ◌-ℤ◌ neg_ℤ ◌+ℤ◌
adjust-adjust_example =
    adjust-adjust ⦃P = memory⦄ 1 bonus admin_context (fresh_from 200) (fresh_from 300) start
      bonus_reply refl refl

adjust-reverse_example :
    memory.find_unique 1
      (reverse ⦃P = memory⦄ 200 mistake admin_context
        (fresh_from 201)
        (adjust ⦃P = memory⦄ 1 bonus admin_context (fresh_from 200) start).1).1.users
    ≡ memory.find_unique 1 start.users
unfolding adjust adjust_tx adjust_new reverse reverse_tx reverse_new create_point_event
    increment_balance record_audit write_audit valid_contract valid_snapshot operation_rules trim
    ◌>>=◌ ◌-ℤ◌ neg_ℤ ◌+ℤ◌
adjust-reverse_example =
    adjust-reverse ⦃P = memory⦄ 1 bonus admin_context (fresh_from 200) start bonus_reply mistake
      admin_context (fresh_from 201) mistake_reply refl refl refl refl 1

abbrev adjusted : Db ⦃P = memory⦄
adjusted = (adjust ⦃P = memory⦄ 1 bonus admin_context (fresh_from 200) start).1

abbrev mistake_again : ReversalDto
mistake_again = record { reason = text "Lançado em dobro"; idempotency_key = 702 }

reverse-reverse_example :
    reverse ⦃P = memory⦄ 200 mistake_again admin_context
      (fresh_from 202)
      (reverse ⦃P = memory⦄ 200 mistake admin_context (fresh_from 201) adjusted).1
    ≡ (
      err (conflict already_reversed),
      (reverse ⦃P = memory⦄ 200 mistake admin_context (fresh_from 201) adjusted).1,
    )
unfolding adjust adjust_tx adjust_new reverse reverse_tx reverse_new create_point_event
    increment_balance record_audit write_audit valid_contract valid_snapshot operation_rules trim
    ◌>>=◌ ◌-ℤ◌ neg_ℤ ◌+ℤ◌
reverse-reverse_example =
    reverse-reverse ⦃P = memory⦄ 200 mistake mistake_again admin_context admin_context
      (fresh_from 201) (fresh_from 202) adjusted mistake_reply refl refl refl
