-- ===== src/Actions/Repository.antt =====
-- actions.repository.ts: the statements of ActionsRepository.
use semcomp2026_gameficacao.Prelude.{
  ℕ, Bool, true, false, not, ◌&&◌, Option, none, some, if◌then◌else◌, ℤ,
}
use semcomp2026_gameficacao.Text.{Text, text_eq}
use semcomp2026_gameficacao.Database.{Prisma}
use semcomp2026_gameficacao.Database.Schema.{
  Key, Date, User, UserRole, participant, admin, Action, ClaimCode, PointEvent, RedemptionMethod,
  credit, action_redeem,
}
use semcomp2026_gameficacao.Database.Failure.{ok}
use semcomp2026_gameficacao.Database.Tx.{Db, Tx}
use semcomp2026_gameficacao.Ledger.{create_point_event, increment_balance}

abbrev pub is_participant : UserRole → Bool
is_participant participant = true
is_participant admin = false

abbrev pub has_code : Text → Option Text → Bool
has_code code none = false
has_code code (some c) = text_eq code c

-- The input of `createActionPointEvent`.
pub record ActionEventInput : Type 0 where
  pub id : Key
  pub user_id : Key
  pub action_id : Key
  pub points : ℤ
  pub xp_delta : ℤ
  pub redemption_method : RedemptionMethod
  pub claim_code_id : Option Key
  pub actor_admin_id : Option Key
  pub audit_event_id : Option Key
  pub description : Text
  pub created_at : Date

abbrev pub action_event : ActionEventInput → PointEvent
action_event i = record {
  id = i.id;
  user_id = i.user_id;
  action_id = some i.action_id;
  points = i.points;
  xp_delta = i.xp_delta;
  kind = credit;
  source = action_redeem;
  redemption_method = some i.redemption_method;
  claim_code_id = i.claim_code_id;
  audit_event_id = i.audit_event_id;
  reward_redemption_id = none;
  actor_admin_id = i.actor_admin_id;
  idempotency_key = none;
  reversed_event_id = none;
  description = some i.description;
  created_at = i.created_at;
}

abbrev pub used : Key → Date → ClaimCode → ClaimCode
used user_id used_at c = record c {
  is_used = true;
  is_active = false;
  used_by_id = some user_id;
  used_at = some used_at;
}

module _ ⦃P : Prisma⦄ where
  abbrev pub find_action_by_id : Key → Db → Option Action
  find_action_by_id id db = P.find_unique id db.actions

  -- `SELECT … FOR UPDATE` reads the same row.
  abbrev pub lock_action_by_id : Key → Db → Option Action
  lock_action_by_id id db = P.find_unique id db.actions

  abbrev pub only_participant : Option User → Option User
  only_participant none = none
  only_participant (some u) = if is_participant u.role then some u else none

  abbrev pub lock_participant_for_question_grant : Key → Db → Option User
  lock_participant_for_question_grant id db = only_participant (P.find_unique id db.users)

  abbrev pub find_action_id_by_code : Text → Db → Option Action
  find_action_id_by_code code db = P.find_first (λ a. has_code code a.code) db.actions

  abbrev pub with_action : ClaimCode → Option Action → Option (ClaimCode × Action)
  with_action c none = none
  with_action c (some a) = some (c, a)

  abbrev pub include_action : Option ClaimCode → Db → Option (ClaimCode × Action)
  include_action none db = none
  include_action (some c) db = with_action c (P.find_unique c.action_id db.actions)

  -- `findUnique({ where: { code }, include: { action } })`
  abbrev pub find_claim_code_for_redemption : Text → Db → Option (ClaimCode × Action)
  find_claim_code_for_redemption code db =
      include_action (P.find_first (λ c. text_eq code c.code) db.claim_codes) db

  -- Returns the `count` of the rows changed.
  unfoldable pub consume_claim_code : Key → Key → Date → Tx ℕ
  consume_claim_code id user_id used_at db =
      let (t, count) =
        P.update_many id (λ c. not c.is_used && c.is_active) (used user_id used_at)
          db.claim_codes in
      ok (count, record db { claim_codes = t })

  abbrev pub find_claim_code_state : Key → Db → Option ClaimCode
  find_claim_code_state id db = P.find_unique id db.claim_codes

  abbrev pub create_action_point_event : ActionEventInput → Tx PointEvent
  create_action_point_event input = create_point_event (action_event input)

  abbrev pub increment_user_progress : Key → ℤ → ℤ → Tx User
  increment_user_progress = increment_balance
