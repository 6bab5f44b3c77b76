-- ===== src/Actions/Tests.antt =====
-- Redemptions of the sample activity.
use semcomp2026_gameficacao.Prelude.{refl, ◌≡◌, ◌+ℤ◌}
use semcomp2026_gameficacao.Database.Memory.{memory}
use semcomp2026_gameficacao.Database.Failure.{ok, err, conflict, action_already_redeemed}
use semcomp2026_gameficacao.Database.Tx.{◌>>=◌}
use semcomp2026_gameficacao.Ledger.{create_point_event, increment_balance}
use semcomp2026_gameficacao.Samples.{start, with_penalty, ana, opening, penalty, fresh_from}
use semcomp2026_gameficacao.Actions.Redeem.{redeem, redeem_action, redeem_action_tx, grant_action}
use semcomp2026_gameficacao.Actions.Repeated.{redeem-redeem}
use semcomp2026_gameficacao.Actions.Succeeds.{awarded, redeem-succeeds, redeem-negative}

redeem-succeeds_example :
    (redeem ⦃P = memory⦄ 10 1 (fresh_from 100) start).0 ≡ ok (awarded opening ana (fresh_from 100))
unfolding ◌+ℤ◌
redeem-succeeds_example =
    redeem-succeeds ⦃P = memory⦄ 10 1 (fresh_from 100) start opening ana refl refl refl refl refl
      refl refl refl

redeem-redeem_example :
    redeem ⦃P = memory⦄ 10 1 (fresh_from 101) (redeem ⦃P = memory⦄ 10 1 (fresh_from 100) start).1
    ≡ (err (conflict action_already_redeemed), (redeem ⦃P = memory⦄ 10 1 (fresh_from 100) start).1)
unfolding redeem redeem_action redeem_action_tx grant_action create_point_event increment_balance
    ◌>>=◌ ◌+ℤ◌
redeem-redeem_example =
    redeem-redeem ⦃P = memory⦄ 10 1 (fresh_from 100) (fresh_from 101) start
      (awarded opening ana (fresh_from 100)) refl

redeem-negative_example :
    ¬ (redeem ⦃P = memory⦄ 11 1 (fresh_from 100) with_penalty).0
    ≡ ok (awarded penalty ana (fresh_from 100))
redeem-negative_example =
    redeem-negative ⦃P = memory⦄ 11 1 (fresh_from 100) with_penalty penalty
      (awarded penalty ana (fresh_from 100)) refl refl
