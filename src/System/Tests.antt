-- ===== src/System/Tests.antt =====
-- A day of requests on the sample database.
use semcomp2026_gameficacao.Prelude.{
  ◌≡◌, refl, true, false, none, some, [], ◌∷◌, ◌++◌, ◌+ℤ◌, List, ◌≤◌, arith, sort_by, insert_by,
}
use semcomp2026_gameficacao.Text.{Text, text, trim}
use semcomp2026_gameficacao.Database.Memory.{memory}
use semcomp2026_gameficacao.Database.Schema.{PointEvent, ClaimCode}
use semcomp2026_gameficacao.Database.Failure.{is_ok}
use semcomp2026_gameficacao.Database.Tx.{Db, ◌>>=◌}
use semcomp2026_gameficacao.Ledger.Appended.{no_events}
use semcomp2026_gameficacao.Ledger.Sums.{IsReconciled, IsSolvent}
use semcomp2026_gameficacao.Samples.{start, opening, fresh_from, admin_context}
use semcomp2026_gameficacao.System.{
  Request, redeem_directly, redeem_code, redeem_reward, cancel, switch_codes, serve, run,
}
use semcomp2026_gameficacao.System.Effect.{Moves}
use semcomp2026_gameficacao.System.Run.{
  payments, run-IsReconciled, run-IsSolvent, run-Moves, run-payments, run-appends,
}
use semcomp2026_gameficacao.Actions.Redeem.{
  Redemption, redeem_claim_code, redeem_claim_code_tx, grant_action, redeem_by_code,
}
use semcomp2026_gameficacao.Actions.Repository.{consume_claim_code}
use semcomp2026_gameficacao.EventCode.{normalize_event_code, is_claim_code, mask_claim_code, stars}
use semcomp2026_gameficacao.Ledger.{create_point_event, increment_balance}
use semcomp2026_gameficacao.Audit.{record_audit, write_audit, valid_contract, valid_snapshot}
use semcomp2026_gameficacao.Audit.Contract.{operation_rules}
use semcomp2026_gameficacao.ClaimCodes.Repository.{
  update_claim_code_statuses, switch_all, create_bulk_operation,
}
use semcomp2026_gameficacao.ClaimCodes.Bulk.{
  distinct, classify, bulk_update_status, bulk_update_status_tx, to_bulk_detail,
}
use semcomp2026_gameficacao.System.UsedCodes.{redeem_claim_code-run}

abbrev day : List Request
day =
    redeem_directly 10 1 (fresh_from 100)
    ∷ redeem_reward 20 1 (fresh_from 101)
    ∷ cancel 101 (text "Brinde com defeito") admin_context (fresh_from 102)
    ∷ redeem_directly 10 1 (fresh_from 103)
    ∷ []

start-IsReconciled : IsReconciled ⦃P = memory⦄ start
start-IsReconciled = record { points = λ j u h. ground arith; xp = λ j u h. ground arith }

start-IsSolvent : IsSolvent ⦃P = memory⦄ start
start-IsSolvent = record { points = λ j u h. ground arith; xp = λ j u h. ground arith }

run-IsReconciled_example : IsReconciled ⦃P = memory⦄ (run ⦃P = memory⦄ day start)
run-IsReconciled_example = run-IsReconciled ⦃P = memory⦄ day start start-IsReconciled

run-IsSolvent_example : IsSolvent ⦃P = memory⦄ (run ⦃P = memory⦄ day start)
run-IsSolvent_example = run-IsSolvent ⦃P = memory⦄ day start start-IsSolvent

run-Moves_example : Moves ⦃P = memory⦄ start (run ⦃P = memory⦄ day start)
run-Moves_example = run-Moves ⦃P = memory⦄ day start

run-payments_example :
    payments 1 10 (memory.find_many (run ⦃P = memory⦄ day start).point_events) ≤ 1
run-payments_example = run-payments ⦃P = memory⦄ day start 1 10 no_events

run-appends_example :
    (new : List PointEvent) × (memory.find_many (run ⦃P = memory⦄ day start).point_events
      ≡ new ++ memory.find_many start.point_events)
run-appends_example = run-appends ⦃P = memory⦄ day start

abbrev ana_types : Text
ana_types = text "K7QW2M"

abbrev poster : ClaimCode
poster = record {
  id = 30;
  code = ana_types;
  action_id = 10;
  is_used = false;
  is_active = true;
  used_by_id = none;
  used_at = none;
  batch_id = none;
  created_at = 0;
}

abbrev with_poster : Db ⦃P = memory⦄
with_poster = record start { claim_codes = (30, poster) ∷ [] }

abbrev poster_reply : Redemption
poster_reply = record {
  action = opening;
  awarded_points = opening.points;
  awarded_xp = opening.points;
  current_points = opening.points;
  current_xp = opening.points;
  current_level = 1;
  redeemed_at = 400;
}

-- The administrators switch all codes on again before the code is tried once more.
abbrev evening : List Request
evening =
    switch_codes (record { ids = 30 ∷ []; is_active = true; reason = text "Cartazes de volta" })
      admin_context (fresh_from 401)
    ∷ redeem_code ana_types 1 (fresh_from 402)
    ∷ []

abbrev at_night : Db ⦃P = memory⦄
at_night =
    run ⦃P = memory⦄ evening
      (redeem_claim_code ⦃P = memory⦄ ana_types 1 (fresh_from 400) with_poster).1

redeem_claim_code-run_example :
    ((c : ClaimCode) × (memory.find_unique 30 at_night.claim_codes ≡ some c)
      × (c.is_used ≡ true)
      × (c.is_active ≡ false)
      × (c.used_by_id ≡ some 1)
      × (c.used_at ≡ some 400))
    × (is_ok (redeem_claim_code ⦃P = memory⦄ ana_types 1 (fresh_from 403) at_night).0 ≡ false)
unfolding redeem_claim_code redeem_claim_code_tx grant_action consume_claim_code create_point_event
    increment_balance run serve redeem_by_code normalize_event_code bulk_update_status
    bulk_update_status_tx update_claim_code_statuses switch_all classify distinct sort_by insert_by
    create_bulk_operation to_bulk_detail mask_claim_code stars record_audit write_audit
    valid_contract valid_snapshot operation_rules trim is_claim_code ◌>>=◌ ◌+ℤ◌
redeem_claim_code-run_example =
    redeem_claim_code-run ⦃P = memory⦄ ana_types ana_types 1 1 (fresh_from 400) (fresh_from 403)
      evening with_poster poster_reply poster
      (record poster { is_used = true; is_active = false; used_by_id = some 1; used_at = some 400 })
      opening opening refl refl refl refl
