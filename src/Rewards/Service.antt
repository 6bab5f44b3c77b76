-- ===== src/Rewards/Service.antt =====
-- rewards.service.ts: `redeem`, `deliverRedemption` and `cancelRedemption`.
use semcomp2026_gameficacao.Prelude.{not, Option, none, some, ◌++◌, ◌==◌, ℤ, pos, leb_ℤ, neg_ℤ}
use semcomp2026_gameficacao.Text.{Text, text}
use semcomp2026_gameficacao.Database.{Prisma}
use semcomp2026_gameficacao.Database.Schema.{
  Key, Date, Fresh, Reward, RewardRedemption, RedemptionStatus, delivered, cancelled, credit, debit,
}
use semcomp2026_gameficacao.Database.Failure.{
  Result, not_found, bad_request, conflict, reward_not_found, redemption_not_found, reward_inactive,
  reward_out_of_stock, not_enough_points, reward_unavailable, only_pending_redemptions,
}
use semcomp2026_gameficacao.Database.Tx.{
  Db, Tx, pure, ◌>>=◌, ◌>>◌, reads, or_throw, reject_if, with_transaction,
}
use semcomp2026_gameficacao.Audit.{AuditInput, record_audit}
use semcomp2026_gameficacao.Audit.Contract
use semcomp2026_gameficacao.Audit.Contract.{OperationContext, administrator, no_metadata}
use semcomp2026_gameficacao.Rewards.Repository.{
  CancellationState, RewardEventInput, is_pending, find_reward_by_id, debit_user_points,
  credit_user_points, decrement_reward_stock, increment_reward_stock, create_redemption,
  create_reward_point_event, find_redemption_by_id, lock_redemption_state, lock_cancellation_state,
  transition_redemption,
}

abbrev pub purchase_input : Reward → Key → Fresh → RewardEventInput
purchase_input reward user_id fresh = record {
  id = fresh.point_event_id;
  user_id = user_id;
  points = neg_ℤ reward.cost_in_points;
  kind = debit;
  description = text "Resgate de recompensa: " ++ reward.name;
  reward_redemption_id = fresh.entity_id;
  created_at = fresh.now;
}

abbrev pub refund_input : CancellationState → Key → Fresh → RewardEventInput
refund_input state redemption_id fresh = record {
  id = fresh.point_event_id;
  user_id = state.redemption.user_id;
  points = state.redemption.points_spent;
  kind = credit;
  description = text "Cancelamento de recompensa: " ++ state.reward.name;
  reward_redemption_id = redemption_id;
  created_at = fresh.now;
}

abbrev redemption_metadata : Key → Option Key → Contract.AuditMetadata
redemption_metadata redemption_id event_id = record no_metadata {
  reward_redemption_id = some redemption_id;
  point_event_id = event_id;
}

abbrev pub delivery_input :
    OperationContext → Text → Key → RewardRedemption → RewardRedemption → AuditInput
delivery_input context reason id before after = record {
  actor = administrator context;
  operation = Contract.reward_redemption_delivered;
  entity_type = Contract.AuditEntityType.reward_redemption;
  entity_id = id;
  participant_id = some before.user_id;
  reason = reason;
  before = some (
      Contract.Snapshot.delivery_before id before.status before.delivered_at
        before.delivered_by_admin_id);
  after = some (
      Contract.Snapshot.delivery_after id after.status after.delivered_at
        after.delivered_by_admin_id);
  metadata = redemption_metadata id none;
}

abbrev pub cancellation_input :
    OperationContext
    → Text
    → Key
    → CancellationState
    → RewardRedemption
    → (stock points : ℤ) → Key
    → AuditInput
cancellation_input context reason id before after stock points refund_id = record {
  actor = administrator context;
  operation = Contract.reward_redemption_cancelled;
  entity_type = Contract.AuditEntityType.reward_redemption;
  entity_id = id;
  participant_id = some before.redemption.user_id;
  reason = reason;
  before = some (
      Contract.Snapshot.cancellation_before id before.redemption.status before.reward.stock
        before.user.points);
  after = some (
      Contract.Snapshot.cancellation_after id after.status stock points after.cancelled_at
        after.cancelled_by_admin_id refund_id);
  metadata = redemption_metadata id (some refund_id);
}

module _ ⦃P : Prisma⦄ where
  unfoldable pub redeem_tx : Key → Key → Fresh → Tx RewardRedemption
  redeem_tx reward_id user_id fresh = do
    found ← reads (find_reward_by_id reward_id)
    reward ← or_throw found (not_found reward_not_found)
    reject_if (not reward.is_active) (bad_request reward_inactive)
    reject_if (leb_ℤ reward.stock (pos 0)) (bad_request reward_out_of_stock)
    debited_users ← debit_user_points user_id reward.cost_in_points
    reject_if (debited_users == 0) (bad_request not_enough_points)
    decremented ← decrement_reward_stock reward.id
    reject_if (decremented == 0) (bad_request reward_unavailable)
    redemption ← create_redemption fresh.entity_id fresh.now user_id reward.id reward.cost_in_points
    event ← create_reward_point_event (purchase_input reward user_id fresh)
    pure redemption

  unfoldable pub redeem : Key → Key → Fresh → Db → Result RewardRedemption × Db
  redeem reward_id user_id fresh = with_transaction (redeem_tx reward_id user_id fresh)

  -- `transition`: another administrator may have come first.
  unfoldable pub transition : Key → RedemptionStatus → Key → Date → Tx (Unit {0})
  transition id status admin_id at = do
    count ← transition_redemption id status admin_id at
    reject_if (count == 0) (conflict only_pending_redemptions)
    pure tt

  -- `assertPending` is the first two statements.
  unfoldable pub deliver_redemption_tx : Key → Text → OperationContext → Fresh → Tx RewardRedemption
  deliver_redemption_tx redemption_id reason context fresh = do
    found ← reads (lock_redemption_state redemption_id)
    redemption ← or_throw found (not_found redemption_not_found)
    reject_if (not (is_pending redemption.status)) (bad_request only_pending_redemptions)
    done ← transition redemption_id delivered context.actor_admin_id fresh.now
    found_delivered ← reads (find_redemption_by_id redemption_id)
    after ← or_throw found_delivered (not_found redemption_not_found)
    event ←
        record_audit fresh.audit_event_id fresh.now
          (delivery_input context reason redemption_id redemption after)
    pure after

  unfoldable pub deliver_redemption :
      Key → Text → OperationContext → Fresh → Db → Result RewardRedemption × Db
  deliver_redemption redemption_id reason context fresh =
      with_transaction (deliver_redemption_tx redemption_id reason context fresh)

  unfoldable pub cancel_redemption_tx : Key → Text → OperationContext → Fresh → Tx RewardRedemption
  cancel_redemption_tx redemption_id reason context fresh = do
    found ← reads (lock_cancellation_state redemption_id)
    state ← or_throw found (not_found redemption_not_found)
    reject_if (not (is_pending state.redemption.status)) (bad_request only_pending_redemptions)
    done ← transition redemption_id cancelled context.actor_admin_id fresh.now
    user ← credit_user_points state.redemption.user_id state.redemption.points_spent
    reward ← increment_reward_stock state.redemption.reward_id
    refund ← create_reward_point_event (refund_input state redemption_id fresh)
    found_cancelled ← reads (find_redemption_by_id redemption_id)
    after ← or_throw found_cancelled (not_found redemption_not_found)
    event ← record_audit fresh.audit_event_id fresh.now (
        cancellation_input context reason redemption_id state after reward.stock user.points
          refund.id)
    pure after

  unfoldable pub cancel_redemption :
      Key → Text → OperationContext → Fresh → Db → Result RewardRedemption × Db
  cancel_redemption redemption_id reason context fresh =
      with_transaction (cancel_redemption_tx redemption_id reason context fresh)
