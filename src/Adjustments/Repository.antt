-- ===== src/Adjustments/Repository.antt =====
-- admin-adjustments.repository.ts: the statements of `AdminAdjustmentTransaction`.
use semcomp2026_gameficacao.Prelude.{Option, none, some, Bool, ◌==◌, ℤ}
use semcomp2026_gameficacao.Text.{Text}
use semcomp2026_gameficacao.Database.{Prisma}
use semcomp2026_gameficacao.Database.Schema.{
  Key, Date, User, PointEvent, PointEventKind, PointEventSource,
}
use semcomp2026_gameficacao.Database.Failure.{err, fault}
use semcomp2026_gameficacao.Database.Tx.{Db, Tx}
use semcomp2026_gameficacao.Audit.Contract.{AuditEvent}
use semcomp2026_gameficacao.Ledger.{same_id, create_point_event, increment_balance}
use semcomp2026_gameficacao.Actions.Repository.{only_participant}
use mathlib.Core.Option

-- `IdempotentAdjustmentEvent`: an event with its audit event and the id of its reversal.
pub record AdjustmentEvent : Type 0 where
  pub event : PointEvent
  pub audit_event : Option AuditEvent
  pub reversal : Option Key

-- `CreateAdjustmentPointEventInput`
pub record AdjustmentEventInput : Type 0 where
  pub id : Key
  pub user_id : Key
  pub points : ℤ
  pub xp_delta : ℤ
  pub kind : PointEventKind
  pub source : PointEventSource
  pub actor_admin_id : Key
  pub idempotency_key : Key
  pub audit_event_id : Key
  pub description : Text
  pub reversed_event_id : Option Key
  pub created_at : Date

abbrev pub adjustment_event : AdjustmentEventInput → PointEvent
adjustment_event i = record {
  id = i.id;
  user_id = i.user_id;
  action_id = none;
  points = i.points;
  xp_delta = i.xp_delta;
  kind = i.kind;
  source = i.source;
  redemption_method = none;
  claim_code_id = none;
  audit_event_id = some i.audit_event_id;
  reward_redemption_id = none;
  actor_admin_id = some i.actor_admin_id;
  idempotency_key = some i.idempotency_key;
  reversed_event_id = i.reversed_event_id;
  description = some i.description;
  created_at = i.created_at;
}

module _ ⦃P : Prisma⦄ where
  abbrev pub lock_participant : Key → Db → Option User
  lock_participant id db = only_participant (P.find_unique id db.users)

  abbrev pub audit_of : Option Key → Db → Option AuditEvent
  audit_of none db = none
  audit_of (some id) db = P.find_unique id db.audit_events

  abbrev pub has_key : Key → PointEvent → Bool
  has_key key e = same_id (some key) e.idempotency_key

  abbrev pub reverses : Key → PointEvent → Bool
  reverses id e = same_id (some id) e.reversed_event_id

  -- `idempotentEventSelect`
  abbrev pub select : Db → PointEvent → AdjustmentEvent
  select db e = record {
    event = e;
    audit_event = audit_of e.audit_event_id db;
    reversal = Option.map (λ (r : PointEvent). r.id) (P.find_first (reverses e.id) db.point_events);
  }

  abbrev pub lock_point_event : Key → Db → Option AdjustmentEvent
  lock_point_event id db =
      Option.map (select db) (P.find_first (λ (e : PointEvent). id == e.id) db.point_events)

  abbrev pub find_by_idempotency_key : Key → Db → Option AdjustmentEvent
  find_by_idempotency_key key db =
      Option.map (select db) (P.find_first (has_key key) db.point_events)

  abbrev pub find_reversal_by_original_id : Key → Db → Option AdjustmentEvent
  find_reversal_by_original_id id db =
      Option.map (select db) (P.find_first (reverses id) db.point_events)

  abbrev create_unless : Option PointEvent → PointEvent → Tx PointEvent
  create_unless none e db = create_point_event e db
  create_unless (some old) e db = err fault

  -- `createPointEvent`. `withTransaction` translates only the violations of the idempotency key and
  -- of the reversed event: a used primary key stays an unexpected error.
  abbrev pub create_adjustment_point_event : AdjustmentEventInput → Tx PointEvent
  create_adjustment_point_event i db =
      create_unless (P.find_first (λ (e : PointEvent). i.id == e.id) db.point_events)
        (adjustment_event i) db

  abbrev pub update_participant_balance : Key → ℤ → ℤ → Tx User
  update_participant_balance = increment_balance
