-- ===== src/Actions/Redeem.antt =====
-- `redeemByCode`, `redeem`, `redeemAction`, `redeemClaimCode` and `grantAction` of
-- actions.service.ts.
use semcomp2026_gameficacao.Prelude.{
  ℕ, Bool, true, false, not, ◌&&◌, Option, none, some, ◌++◌, ◌==◌, if◌then◌else◌, ℤ,
}
use semcomp2026_gameficacao.Text.{Text, text}
use semcomp2026_gameficacao.EventCode.{normalize_event_code, is_claim_code}
use semcomp2026_gameficacao.Database.{Prisma}
use semcomp2026_gameficacao.Database.Schema.{
  Key, Date, Fresh, Action, ClaimCode, RedemptionMethod, direct, reusable_code, claim_code,
}
use semcomp2026_gameficacao.Database.Failure.{
  Result, err, not_found, bad_request, conflict, action_not_found, action_inactive, code_inactive,
  code_already_used, code_not_consumed, action_already_redeemed, translate_conflict,
}
use semcomp2026_gameficacao.Database.Tx.{
  Db, Tx, pure, throw, ◌>>=◌, ◌>>◌, reads, or_throw, reject_if, with_transaction, rethrow,
}
use semcomp2026_gameficacao.Actions.Repository.{
  ActionEventInput, find_action_by_id, find_action_id_by_code, find_claim_code_for_redemption,
  consume_claim_code, find_claim_code_state, create_action_point_event, increment_user_progress,
}

pub record Redemption : Type 0 where
  pub action : Action
  pub awarded_points : ℤ
  pub awarded_xp : ℤ
  pub current_points : ℤ
  pub current_xp : ℤ
  pub current_level : ℕ
  pub redeemed_at : Date

abbrev pub is_reusable_code : RedemptionMethod → Bool
is_reusable_code reusable_code = true
is_reusable_code _ = false

abbrev pub event_input : Action → Key → RedemptionMethod → Option Key → Fresh → ActionEventInput
event_input action user_id method claim_code_id fresh = record {
  id = fresh.point_event_id;
  user_id = user_id;
  action_id = action.id;
  points = action.points;
  xp_delta = action.points;
  redemption_method = method;
  claim_code_id = claim_code_id;
  actor_admin_id = none;
  audit_event_id = none;
  description = text "Resgate da atividade: " ++ action.name;
  created_at = fresh.now;
}

module _ ⦃P : Prisma⦄ where
  unfoldable pub grant_action : Action → Key → RedemptionMethod → Option Key → Fresh → Tx Redemption
  grant_action action user_id method claim_code_id fresh = do
    reject_if (not action.is_active) (bad_request action_inactive)
    event ← create_action_point_event (event_input action user_id method claim_code_id fresh)
    user ← increment_user_progress user_id action.points action.points
    pure (record {
      action = action;
      awarded_points = action.points;
      awarded_xp = event.xp_delta;
      current_points = user.points;
      current_xp = user.xp;
      current_level = user.level;
      redeemed_at = fresh.now;
    })

  unfoldable pub redeem_action_tx : Key → Key → RedemptionMethod → Fresh → Tx Redemption
  unfolding grant_action
  redeem_action_tx action_id user_id method fresh = do
    found ← reads (find_action_by_id action_id)
    action ← or_throw found (not_found action_not_found)
    reject_if (is_reusable_code method && not action.is_code_active) (bad_request code_inactive)
    grant_action action user_id method none fresh

  -- `redeemAction`
  unfoldable pub redeem_action : Key → Key → RedemptionMethod → Fresh → Db → Result Redemption × Db
  redeem_action action_id user_id method fresh db =
      rethrow (translate_conflict action_already_redeemed)
        (with_transaction (redeem_action_tx action_id user_id method fresh) db)

  -- `redeem`
  unfoldable pub redeem : Key → Key → Fresh → Db → Result Redemption × Db
  unfolding redeem_action
  redeem action_id user_id = redeem_action action_id user_id direct

  abbrev pub used_or_inactive : Option ClaimCode → Tx (Unit {0})
  used_or_inactive none = throw (conflict code_not_consumed)
  used_or_inactive (some current) =
      if current.is_used
      then throw (conflict code_already_used)
      else if not current.is_active
      then throw (bad_request code_inactive)
      else throw (conflict code_not_consumed)

  -- What follows a `consumeClaimCode` that changed no row: another request came first.
  unfoldable pub explain_unconsumed : Key → Tx (Unit {0})
  explain_unconsumed id db = used_or_inactive (find_claim_code_state id db) db

  unfoldable pub redeem_claim_code_tx : Text → Key → Fresh → Tx Redemption
  unfolding grant_action consume_claim_code explain_unconsumed
  redeem_claim_code_tx code user_id fresh = do
    found ← reads (find_claim_code_for_redemption code)
    (claim, action) ← or_throw found (not_found action_not_found)
    reject_if claim.is_used (conflict code_already_used)
    reject_if (not claim.is_active) (bad_request code_inactive)
    reject_if (not action.is_active) (bad_request action_inactive)
    count ← consume_claim_code claim.id user_id fresh.now
    if count == 1 then pure tt else explain_unconsumed claim.id
    grant_action action user_id claim_code (some claim.id) fresh

  -- `redeemClaimCode`
  unfoldable pub redeem_claim_code : Text → Key → Fresh → Db → Result Redemption × Db
  redeem_claim_code code user_id fresh db =
      rethrow (translate_conflict action_already_redeemed)
        (with_transaction (redeem_claim_code_tx code user_id fresh) db)

  abbrev pub redeem_found : Option Action → Key → Fresh → Db → Result Redemption × Db
  redeem_found none user_id fresh db = (err (not_found action_not_found), db)
  redeem_found (some action) user_id fresh db =
      redeem_action action.id user_id reusable_code fresh db

  abbrev pub redeem_normalized : Option Text → Key → Fresh → Db → Result Redemption × Db
  redeem_normalized none user_id fresh db = (err (not_found action_not_found), db)
  redeem_normalized (some normalized) user_id fresh db =
      if is_claim_code (some normalized)
      then redeem_claim_code normalized user_id fresh db
      else redeem_found (find_action_id_by_code normalized db) user_id fresh db

  -- `redeemByCode`
  unfoldable pub redeem_by_code : Text → Key → Fresh → Db → Result Redemption × Db
  redeem_by_code code = redeem_normalized (normalize_event_code (some code))
