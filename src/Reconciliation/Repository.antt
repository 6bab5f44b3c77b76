-- ===== src/Reconciliation/Repository.antt =====
-- admin-reconciliation.repository.ts: the statements of `ReconciliationTransaction`.
use semcomp2026_gameficacao.Prelude.{
  ◌^◌, ◌==◌, Bool, ◌&&◌, Option, none, some, List, [], ◌∷◌, map, filter, ℤ, pos_part, neg_part, ltb,
  leb, if◌then◌else◌, sort_by,
}
use semcomp2026_gameficacao.Text.{Text}
use semcomp2026_gameficacao.Database.{Prisma}
use semcomp2026_gameficacao.Database.Schema.{
  Key, Date, User, PointEvent, PointEventKind, admin_adjust,
}
use semcomp2026_gameficacao.Database.Failure.{ok, err, fault}
use semcomp2026_gameficacao.Database.Tx.{Db, Tx}
use semcomp2026_gameficacao.Audit.Contract.{AuditEvent}
use semcomp2026_gameficacao.Ledger.{same_id, create_point_event}
use semcomp2026_gameficacao.Ledger.Sums.{ledger_points, ledger_xp}
use semcomp2026_gameficacao.Actions.Repository.{only_participant}
use semcomp2026_gameficacao.Adjustments.Repository.{audit_of, has_key}
use mathlib.Core.Option

-- `ReconciliationRow`
pub record ReconciliationRow : Type 0 where
  pub participant_id : Key
  pub name : Text
  pub stored_points : ℤ
  pub stored_xp : ℤ
  pub ledger_points : ℤ
  pub ledger_xp : ℤ
  pub last_event_at : Option Date

-- `ReconciliationCompensationEvent`: an event with its audit event.
pub record CompensationEvent : Type 0 where
  pub event : PointEvent
  pub audit_event : Option AuditEvent

-- The input of `createPointEvent`.
pub record CompensationInput : Type 0 where
  pub id : Key
  pub user_id : Key
  pub points : ℤ
  pub xp_delta : ℤ
  pub kind : PointEventKind
  pub actor_admin_id : Key
  pub idempotency_key : Option Key
  pub audit_event_id : Key
  pub description : Text
  pub created_at : Date

abbrev pub compensation_event : CompensationInput → PointEvent
compensation_event i = record {
  id = i.id;
  user_id = i.user_id;
  action_id = none;
  points = i.points;
  xp_delta = i.xp_delta;
  kind = i.kind;
  source = admin_adjust;
  redemption_method = none;
  claim_code_id = none;
  audit_event_id = some i.audit_event_id;
  reward_redemption_id = none;
  actor_admin_id = some i.actor_admin_id;
  idempotency_key = i.idempotency_key;
  reversed_event_id = none;
  description = some i.description;
  created_at = i.created_at;
}

-- The `MAX("createdAt")` of the events of a user.
abbrev later : Option Date → Date → Option Date
later none d = some d
later (some m) d = some (if leb d m then m else d)

unfoldable pub last_event_at : Key → List PointEvent → Option Date
last_event_at id [] = none
last_event_at id (e ∷ es) =
    let rest = last_event_at id es in if e.user_id == id then later rest e.created_at else rest

-- `Number.isSafeInteger`
abbrev pub is_safe : ℤ → Bool
is_safe z = ltb (pos_part z) (2 ^ 53) && ltb (neg_part z) (2 ^ 53)

-- A participant beside the sums of the events.
abbrev pub reconciliation_row : Key → List PointEvent → User → ReconciliationRow
reconciliation_row id events u = record {
  participant_id = id;
  name = u.name;
  stored_points = u.points;
  stored_xp = u.xp;
  ledger_points = ledger_points id events;
  ledger_xp = ledger_xp id events;
  last_event_at = last_event_at id events;
}

-- An event of an audit event.
abbrev pub has_audit : Key → PointEvent → Bool
has_audit id e = same_id (some id) e.audit_event_id

abbrev pub is_earlier : PointEvent → PointEvent → Bool
is_earlier e f = leb e.created_at f.created_at

module _ ⦃P : Prisma⦄ where
  abbrev to_safe_row : Key → Option User → Tx (Option ReconciliationRow)
  to_safe_row id none db = ok (none, db)
  to_safe_row id (some u) db =
      let row = reconciliation_row id (P.find_many db.point_events) u in
      if is_safe row.ledger_points && is_safe row.ledger_xp then ok (some row, db) else err fault

  -- `lockReconciliation`; the `RangeError` of `toSafeInteger` is a fault.
  unfoldable pub lock_reconciliation : Key → Tx (Option ReconciliationRow)
  unfolding last_event_at
  lock_reconciliation id db = to_safe_row id (only_participant (P.find_unique id db.users)) db

  -- `compensationEventSelect`
  abbrev pub select_compensation : Db → PointEvent → CompensationEvent
  select_compensation db e = record { event = e; audit_event = audit_of e.audit_event_id db }

  abbrev pub find_compensation_by_key : Key → Db → Option CompensationEvent
  find_compensation_by_key key db =
      Option.map (select_compensation db) (P.find_first (has_key key) db.point_events)

  -- `findByAuditEventId`
  unfoldable pub find_by_audit_event_id : Key → Db → List CompensationEvent
  unfolding sort_by
  find_by_audit_event_id id db =
      map (select_compensation db)
        (sort_by is_earlier (filter (has_audit id) (P.find_many db.point_events)))

  abbrev create_unless : Option PointEvent → PointEvent → Tx PointEvent
  create_unless none e db = create_point_event e db
  create_unless (some old) e db = err fault

  -- `createPointEvent`. `withTransaction` translates only the violation of the idempotency key: a
  -- used primary key stays an unexpected error.
  abbrev pub create_compensation_event : CompensationInput → Tx PointEvent
  create_compensation_event i db =
      create_unless (P.find_first (λ (e : PointEvent). i.id == e.id) db.point_events)
        (compensation_event i) db
