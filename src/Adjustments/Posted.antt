-- ===== src/Adjustments/Posted.antt =====
-- What the statements that `adjust` and `reverse` share have done: one audited event that leaves no
-- balance below zero.
use semcomp2026_gameficacao.Prelude.{
  ◌≡◌, true, false, Option, none, some, arith, pos, ◌==◌, ◌+ℤ◌, ◌≤ℤ◌, Option-cases, inl, inr, ==→eq,
}
use semcomp2026_gameficacao.Database.{Prisma}
use semcomp2026_gameficacao.Database.Schema.{Key, Date, User, PointEvent}
use semcomp2026_gameficacao.Database.Failure.{ok}
use semcomp2026_gameficacao.Database.Tx.{Db}
use semcomp2026_gameficacao.Audit.{AuditInput, event_of, record_audit}
use semcomp2026_gameficacao.Audit.Record.{record_audit-ok}
use semcomp2026_gameficacao.Audit.Contract.{AuditEvent}
use semcomp2026_gameficacao.Ledger.{conflicts, credited}
use semcomp2026_gameficacao.Ledger.Posting.{Posting}
use semcomp2026_gameficacao.Ledger.Statements.{Created, create_point_event-ok, increment_balance-ok}
use semcomp2026_gameficacao.Actions.Repository.{only_participant}
use semcomp2026_gameficacao.Adjustments.Repository.{
  AdjustmentEventInput, adjustment_event, create_adjustment_point_event, update_participant_balance,
}
use semcomp2026_gameficacao.Adjustments.Replay.{Adjustment}
use semcomp2026_gameficacao.Adjustments.Service.{posted, overdrawn}

module _ ⦃P : Prisma⦄ where
  Created-ok :
      (i : AdjustmentEventInput) (db : Db) (r : PointEvent) (db' : Db)
      → create_adjustment_point_event i db ≡ ok (r, db')
      → Created (adjustment_event i) db r db'
  Created-ok i db r db' h =
      elim (Option-cases (P.find_first (λ (e : PointEvent). i.id == e.id) db.point_events)) [
        | inl none_yet ↦ create_point_event-ok _ db r db' (ground arith)
        | inr (old, found) ↦ absurd (ground arith)
      ]

  Created-new_id :
      (i : AdjustmentEventInput) (db : Db) (r : PointEvent) (db' : Db)
      → create_adjustment_point_event i db ≡ ok (r, db')
      → P.find_first (λ (e : PointEvent). i.id == e.id) db.point_events ≡ none
  Created-new_id i db r db' h =
      elim (Option-cases (P.find_first (λ (e : PointEvent). i.id == e.id) db.point_events)) [
        | inl none_yet ↦ none_yet
        | inr (old, found) ↦ absurd (ground arith)
      ]

  pub only_participant-some :
      (o : Option User) (u : User) → only_participant o ≡ some u → o ≡ some u
  only_participant-some none u h = absurd (cc)
  only_participant-some (some v) u h = ground arith

  pub record Posted (e : PointEvent) (a : AuditEvent) (db : Db) (r : Adjustment) (db' : Db)
      : Type 0 where
    pub posting : Posting e db db'
    pub points : pos 0 ≤ℤ posting.user.points +ℤ e.points
    pub xp : pos 0 ≤ℤ posting.user.xp +ℤ e.xp_delta
    pub unique : P.find_first (conflicts e) db.point_events ≡ none
    pub new_event : P.find_first (λ (x : PointEvent). e.id == x.id) db.point_events ≡ none
    pub new_audit : P.find_unique a.id db.audit_events ≡ none
    pub events : db'.point_events ≡ P.create e.id e db.point_events
    pub audits : db'.audit_events ≡ P.create a.id a db.audit_events
    pub returned : r ≡ posted posting.user (credited e.points e.xp_delta posting.user) e a
    pub frame : db' ≡ record db {
      users = db'.users;
      point_events = db'.point_events;
      audit_events = db'.audit_events;
    }

  -- The statements that `adjust` and `reverse` share.
  pub posted-ok :
      (u : User) (i : AdjustmentEventInput) (id : Key) (now : Date) (input : AuditInput)
      (db db1 db2 db3 : Db) (updated : User) (audit : AuditEvent) (event : PointEvent)
      → P.find_unique i.user_id db.users ≡ some u
      → overdrawn u i.points i.xp_delta ≡ false
      → update_participant_balance i.user_id i.points i.xp_delta db ≡ ok (updated, db1)
      → record_audit id now input db1 ≡ ok (audit, db2)
      → create_adjustment_point_event i db2 ≡ ok (event, db3)
      → Posted (adjustment_event i) (event_of id now input) db (posted u updated event audit) db3
  posted-ok u i id now input db db1 db2 db3 updated audit event found covered run1 run2 run3 =
      let b = increment_balance-ok _ _ _ db updated db1 run1 in
      let a = record_audit-ok _ _ _ db1 audit db2 run2 in
      let c = Created-ok _ db2 event db3 run3 in
      let e = adjustment_event i in
      let update = credited i.points i.xp_delta in
      record {
        posting = record {
          user = u;
          found = found;
          users = λ j. ground (
            arith,
            found,
            b.state,
            a.state,
            c.state,
            P.find_unique-update_many i.user_id j (λ _. true) update db.users,
            ==→eq i.user_id j,
          );
          events =
              ground (arith, b.state, a.state, c.state, P.find_many-create e.id e db.point_events);
        };
        points = ground arith;
        xp = ground arith;
        unique = ground (arith, c.unique, b.state, a.state);
        new_event = ground (arith, Created-new_id i db2 event db3 run3, b.state, a.state);
        new_audit = ground (arith, a.fresh, b.state);
        events = ground (arith, b.state, a.state, c.state);
        audits = ground (arith, b.state, a.state, c.state);
        returned = ground (arith, b.row, b.found, found, a.row, c.row);
        frame = ground (arith, b.state, a.state, c.state);
      }
