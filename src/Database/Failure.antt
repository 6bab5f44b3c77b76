-- ===== src/Database/Failure.antt =====
-- What a service throws: the exceptions of @nestjs/common with their messages, the error of
-- apps/api/src/common/persistence-errors.ts, `SessionStartRejectedError`,
-- and `fault` for every other error of the client and an internal server error.
use semcomp2026_gameficacao.Prelude.{Bool, true, false}

-- The messages, by what they say.
pub data Message : Type 0 where
  action_not_found participant_not_found reward_not_found redemption_not_found : Message
  claim_code_not_found batch_not_found point_event_not_found : Message
  action_inactive code_inactive reserved_code_format not_a_question participant_inactive : Message
  code_already_used code_not_consumed action_already_redeemed code_already_exists : Message
  question_already_granted : Message
  reward_inactive reward_out_of_stock not_enough_points reward_unavailable : Message
  only_pending_redemptions : Message
  negative_adjustment negative_reversal not_an_adjustment already_reversed : Message
  idempotency_conflict already_reconciled invalid_idempotent_record : Message
  bad_limit bad_period bad_interval bad_date : Message
  status_changed_concurrently codes_changed_concurrently : Message
  audit_context audit_snapshot audit_reason : Message
  invalid_participant_login invalid_admin_login account_already_exists : Message
  invalid_participant_password invalid_admin_password password_must_change : Message
  password_change_not_required password_reset_invalid password_reset_pending : Message
  operator_not_found operator_not_created operator_not_updated : Message
  operator_status_not_changed operator_not_reset : Message
  last_active_general_admin activation_invalid : Message

pub data Failure : Type 0 where
  not_found : Message → Failure
  bad_request : Message → Failure
  conflict : Message → Failure
  unauthorized : Message → Failure
  service_unavailable : Failure
  unique_constraint : Failure
  session_start_rejected : Failure
  fault : Failure

pub data Result {ℓ} (A : Type ℓ) : Type ℓ where
  ok : A → Result A
  err : Failure → Result A

-- `catch (error) { if (error instanceof PersistenceUniqueConstraintError) throw …; throw error; }`
abbrev pub translate_conflict : Message → Failure → Failure
translate_conflict m unique_constraint = conflict m
translate_conflict _ e = e

unfoldable pub is_ok {ℓ} : {A : Type ℓ} → Result A → Bool
is_ok (ok _) = true
is_ok (err _) = false
