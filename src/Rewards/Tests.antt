-- ===== src/Rewards/Tests.antt =====
-- A reward that is bought and cancelled.
use semcomp2026_gameficacao.Prelude.{refl, none, some, pos, ◌-ℤ◌, neg_ℤ, ◌+ℤ◌}
use semcomp2026_gameficacao.Text.{text, trim}
use semcomp2026_gameficacao.Database.Memory.{memory}
use semcomp2026_gameficacao.Database.Schema.{RewardRedemption, pending, cancelled}
use semcomp2026_gameficacao.Database.Tx.{◌>>=◌}
use semcomp2026_gameficacao.Audit.{record_audit, write_audit, valid_contract, valid_snapshot}
use semcomp2026_gameficacao.Audit.Contract.{operation_rules}
use semcomp2026_gameficacao.Ledger.{create_point_event, increment_balance}
use semcomp2026_gameficacao.Samples.{rich, fresh_from, admin_context}
use semcomp2026_gameficacao.Rewards.Repository
use semcomp2026_gameficacao.Rewards.Service.{
  redeem, redeem_tx, cancel_redemption, cancel_redemption_tx, transition,
}
use semcomp2026_gameficacao.Rewards.Undone.{Undone, redeem-cancel_redemption}

abbrev bought : RewardRedemption
bought = record {
  id = 101;
  user_id = 1;
  reward_id = 20;
  points_spent = pos 20;
  status = pending;
  delivered_at = none;
  delivered_by_admin_id = none;
  cancelled_at = none;
  cancelled_by_admin_id = none;
  created_at = 101;
}

abbrev returned : RewardRedemption
returned = record bought {
  status = cancelled;
  cancelled_at = some 102;
  cancelled_by_admin_id = some 99;
}

redeem-cancel_redemption_example :
    Undone ⦃P = memory⦄ rich
      (cancel_redemption ⦃P = memory⦄ 101
        (text "Brinde com defeito")
        admin_context
        (fresh_from 102)
        (redeem ⦃P = memory⦄ 20 1 (fresh_from 101) rich).1).1
unfolding redeem redeem_tx cancel_redemption cancel_redemption_tx transition ◌>>=◌
    Repository.debit_user_points Repository.decrement_reward_stock Repository.create_redemption
    Repository.create_reward_point_event create_point_event increment_balance
    Repository.transition_redemption Repository.increment_reward_stock record_audit write_audit
    valid_contract valid_snapshot operation_rules trim ◌-ℤ◌ neg_ℤ ◌+ℤ◌
redeem-cancel_redemption_example =
    redeem-cancel_redemption ⦃P = memory⦄ 20 1 (fresh_from 101) rich bought
      (text "Brinde com defeito") admin_context (fresh_from 102) returned refl refl
