-- ===== src/Actions/Question.antt =====
-- `grantQuestionAction` of actions.service.ts: an administrator gives a participant the points of a
-- question.
use semcomp2026_gameficacao.Prelude.{ℕ, Bool, true, false, not, none, some, ℤ, ◌+ℤ◌}
use semcomp2026_gameficacao.Text.{Text, text}
use semcomp2026_gameficacao.Database.{Prisma}
use semcomp2026_gameficacao.Database.Schema.{
  Key, Date, Fresh, User, Action, ActionType, question, direct,
}
use semcomp2026_gameficacao.Database.Failure.{
  Result, not_found, bad_request, action_not_found, not_a_question, action_inactive,
  participant_not_found, participant_inactive, question_already_granted, translate_conflict,
}
use semcomp2026_gameficacao.Database.Tx.{
  Db, Tx, pure, ◌>>=◌, ◌>>◌, reads, or_throw, reject_if, with_transaction, rethrow,
}
use semcomp2026_gameficacao.Audit.{AuditInput, record_audit}
use semcomp2026_gameficacao.Audit.Contract
use semcomp2026_gameficacao.Audit.Contract.{
  BalanceFields, OperationContext, administrator, balance_before, balance_adjusted_after,
  no_metadata, participant_balance_adjusted,
}
use semcomp2026_gameficacao.Actions.Repository.{
  ActionEventInput, lock_action_by_id, lock_participant_for_question_grant,
  create_action_point_event, increment_user_progress,
}

pub record QuestionGrant : Type 0 where
  pub action_id : Key
  pub action_name : Text
  pub action_points : ℤ
  pub participant_id : Key
  pub point_event_id : Key
  pub awarded_points : ℤ
  pub awarded_xp : ℤ
  pub current_points : ℤ
  pub current_xp : ℤ
  pub current_level : ℕ
  pub granted_at : Date

abbrev pub is_question : ActionType → Bool
is_question question = true
is_question _ = false

abbrev grant_reason : Text
grant_reason = text "Pergunta em palestra registrada manualmente pelo administrador."

abbrev balance_of : User → (points xp : ℤ) → BalanceFields
balance_of u points xp = record {
  participant_id = u.id;
  points = points;
  xp = xp;
  role = u.role;
  is_active = u.is_active;
}

abbrev question_audit : Action → User → Key → OperationContext → Fresh → AuditInput
question_audit action u participant_id context fresh = record {
  actor = administrator context;
  operation = participant_balance_adjusted;
  entity_type = Contract.AuditEntityType.point_event;
  entity_id = fresh.point_event_id;
  participant_id = some participant_id;
  reason = grant_reason;
  before =
      some
        (balance_before (record (balance_of u u.points u.xp) { participant_id = participant_id }));
  after = some (
      balance_adjusted_after
        (record (balance_of u (u.points +ℤ action.points) (u.xp +ℤ action.points)) {
          participant_id = participant_id;
        })
        fresh.point_event_id);
  metadata = record no_metadata {
    action_id = some action.id;
    point_event_id = some fresh.point_event_id;
  };
}

abbrev pub question_input : Action → Key → OperationContext → Fresh → Key → ActionEventInput
question_input action participant_id context fresh audit_id = record {
  id = fresh.point_event_id;
  user_id = participant_id;
  action_id = action.id;
  points = action.points;
  xp_delta = action.points;
  redemption_method = direct;
  claim_code_id = none;
  actor_admin_id = some context.actor_admin_id;
  audit_event_id = some audit_id;
  description = grant_reason;
  created_at = fresh.now;
}

module _ ⦃P : Prisma⦄ where
  unfoldable pub grant_question_tx : Key → Key → OperationContext → Fresh → Tx QuestionGrant
  grant_question_tx action_id participant_id context fresh = do
    found ← reads (lock_action_by_id action_id)
    action ← or_throw found (not_found action_not_found)
    reject_if (not (is_question action.type)) (bad_request not_a_question)
    reject_if (not action.is_active) (bad_request action_inactive)
    locked ← reads (lock_participant_for_question_grant participant_id)
    participant ← or_throw locked (not_found participant_not_found)
    reject_if (not participant.is_active) (bad_request participant_inactive)
    audit_event ←
        record_audit fresh.audit_event_id fresh.now
          (question_audit action participant participant_id context fresh)
    event ←
        create_action_point_event
          (question_input action participant_id context fresh audit_event.id)
    progress ← increment_user_progress participant_id action.points action.points
    pure (record {
      action_id = action.id;
      action_name = action.name;
      action_points = action.points;
      participant_id = participant_id;
      point_event_id = event.id;
      awarded_points = action.points;
      awarded_xp = event.xp_delta;
      current_points = progress.points;
      current_xp = progress.xp;
      current_level = progress.level;
      granted_at = fresh.now;
    })

  -- `grantQuestionAction`
  unfoldable pub grant_question_action :
      Key → Key → OperationContext → Fresh → Db → Result QuestionGrant × Db
  grant_question_action action_id participant_id context fresh db =
      rethrow (translate_conflict question_already_granted)
        (with_transaction (grant_question_tx action_id participant_id context fresh) db)
