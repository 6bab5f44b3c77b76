-- ===== src/Reconciliation/Settled.antt =====
-- What `confirm` has done when its transaction returned: it answered from the event that already has
-- the key, or appended the compensation of a divergent participant.
use semcomp2026_gameficacao.Prelude.{
  ◌⊎◌, ◌≡◌, false, Option, none, some, List, [], ◌∷◌, ◌+ℤ◌, arith, refl, sym, ◌∙◌, Option-cases,
  inl, inr, All, ==-refl, ◌==◌,
}
use semcomp2026_gameficacao.Database.{Prisma}
use semcomp2026_gameficacao.Database.Schema.{Key, Fresh, User, PointEvent}
use semcomp2026_gameficacao.Database.Failure.{Result, ok, err}
use semcomp2026_gameficacao.Database.Tx.{Db}
use semcomp2026_gameficacao.Database.Inversion.{
  >>=-elim, reads-elim, or_throw-elim, reject_if-elim, pure-ok,
}
use semcomp2026_gameficacao.Audit.Record.{record_audit-ok}
use semcomp2026_gameficacao.Audit.Contract.{OperationContext}
use semcomp2026_gameficacao.Ledger.Appended.{
  Appended, Appended-before, done, append, IsOf, IsNotOf, sum_points, sum_xp,
}
use semcomp2026_gameficacao.Ledger.Statements.{Created, create_point_event-ok}
use semcomp2026_gameficacao.Actions.Repository.{only_participant}
use semcomp2026_gameficacao.Adjustments.Posted.{only_participant-some}
use semcomp2026_gameficacao.Reconciliation.Repository.{
  ReconciliationRow, CompensationEvent, CompensationInput, compensation_event, reconciliation_row,
  lock_reconciliation, find_compensation_by_key, create_compensation_event,
}
use semcomp2026_gameficacao.Reconciliation.Snapshot.{
  ReconciliationSnapshot, is_consistent, reconciliation_snapshot, compensation_deltas,
}
use semcomp2026_gameficacao.Reconciliation.Replay.{ConfirmDto, Confirmation}
use semcomp2026_gameficacao.Reconciliation.Service.{
  Compensation, compensations, compensation_input, create_compensations, confirm_new, confirm_tx,
  confirm_or_replay, answers, replay_in,
}

abbrev pub compensation_events :
    List Compensation → Option Key → Key → ConfirmDto → OperationContext → Fresh → List PointEvent
compensation_events [] key id input context fresh = []
compensation_events (c ∷ cs) key id input context fresh =
    compensation_event (compensation_input c key id input context fresh)
    ∷ compensation_events cs none id input context fresh

pub compensation_events-IsOf :
    (cs : List Compensation) (key : Option Key) (id : Key) (input : ConfirmDto)
    (context : OperationContext) (fresh : Fresh)
    → All (IsOf id) (compensation_events cs key id input context fresh)
compensation_events-IsOf [] key id input context fresh = tt
compensation_events-IsOf (c ∷ cs) key id input context fresh =
    (==-refl id, compensation_events-IsOf cs none id input context fresh)

pub compensation_events-IsNotOf :
    (cs : List Compensation) (key : Option Key) (id j : Key) (input : ConfirmDto)
    (context : OperationContext) (fresh : Fresh)
    → (id == j) ≡ false
    → All (IsNotOf j) (compensation_events cs key id input context fresh)
compensation_events-IsNotOf [] key id j input context fresh h = tt
compensation_events-IsNotOf (c ∷ cs) key id j input context fresh h =
    (h, compensation_events-IsNotOf cs none id j input context fresh h)

-- The events of a compensation add up to the differences.
pub compensation_events-sums :
    (before : ReconciliationSnapshot) (key : Option Key) (id : Key) (input : ConfirmDto)
    (context : OperationContext) (fresh : Fresh)
    → (sum_points (compensation_events (compensations before fresh) key id input context fresh)
        ≡ before.fields.points_difference)
      × (sum_xp (compensation_events (compensations before fresh) key id input context fresh)
          ≡ before.fields.xp_difference)
unfolding compensation_deltas ◌+ℤ◌
compensation_events-sums before key id input context fresh = (ground arith, ground arith)

module _ ⦃P : Prisma⦄ where
  Created-ok :
      (i : CompensationInput) (db : Db) (r : PointEvent) (db' : Db)
      → create_compensation_event i db ≡ ok (r, db')
      → Created (compensation_event i) db r db'
  Created-ok i db r db' h =
      elim (Option-cases (P.find_first (λ (e : PointEvent). i.id == e.id) db.point_events)) [
        | inl none_yet ↦ create_point_event-ok _ db r db' (ground arith)
        | inr (old, found) ↦ absurd (ground arith)
      ]

  pub record Compensated (news : List PointEvent) (db : Db) (r : List PointEvent) (db' : Db)
      : Type 0 where
    pub returned : r ≡ news
    pub appended : Appended news (P.find_many db.point_events) (P.find_many db'.point_events)
    pub frame : db' ≡ record db { point_events = db'.point_events }

  create_compensations-ok :
      (cs : List Compensation) (key : Option Key) (id : Key) (input : ConfirmDto)
      (context : OperationContext) (fresh : Fresh) (db : Db) (r : List PointEvent) (db' : Db)
      → create_compensations cs key id input context fresh db ≡ ok (r, db')
      → Compensated (compensation_events cs key id input context fresh) db r db'
  unfolding create_compensations
  create_compensations-ok [] key id input context fresh db r db' h =
      let last = pure-ok _ db h in
      rw last.0 (rw last.1 (record { returned = refl; appended = done; frame = refl }))
  create_compensations-ok (c ∷ cs) key id input context fresh db r db' h =
      >>=-elim _ _ _ h λ event db1 run1 h1. >>=-elim _ _ _ h1 λ events db2 run2 h2.
        let e = compensation_event (compensation_input c key id input context fresh) in
        let first = Created-ok _ db event db1 run1 in
        let rest = create_compensations-ok cs none id input context fresh db1 events db2 run2 in
        let last = pure-ok _ db2 h2 in
        let grown : P.find_many db1.point_events ≡ e ∷ P.find_many db.point_events =
          ground (arith, first.state, P.find_many-create e.id e db.point_events) in
        let alone = sym (P.find_first-eq_find? _ db.point_events) ∙ first.unique in
        rw last.1 (record {
          returned = ground (arith, last.0, first.row, rest.returned);
          appended = append alone (Appended-before grown rest.appended);
          frame = ground (arith, first.state, rest.frame);
        })

  pub record Confirmed (id : Key) (input : ConfirmDto) (context : OperationContext) (fresh : Fresh)
      (db : Db) (r : Confirmation) (db' : Db) : Type 0 where
    pub user : User
    pub found : P.find_unique id db.users ≡ some user
    pub divergent :
        is_consistent
          (reconciliation_snapshot
            (reconciliation_row id (P.find_many db.point_events) user)).status
        ≡ false
    pub appended :
        Appended
          (compensation_events
            (compensations
              (reconciliation_snapshot (reconciliation_row id (P.find_many db.point_events) user))
              fresh)
            (some input.idempotency_key)
            id
            input
            context
            fresh)
          (P.find_many db.point_events)
          (P.find_many db'.point_events)
    pub frame : db' ≡ record db { point_events = db'.point_events; audit_events = db'.audit_events }

  pub record Answered (key id : Key) (input : ConfirmDto) (context : OperationContext) (db : Db)
      (r : Confirmation) (db' : Db) : Type 0 where
    pub event : CompensationEvent
    pub existing : find_compensation_by_key key db ≡ some event
    pub answered : replay_in db event id input context ≡ ok r
    pub frame : db' ≡ db

  abbrev row_of : Key → Db → User → ReconciliationRow
  row_of id db u = reconciliation_row id (P.find_many db.point_events) u

  confirm_new-ok :
      (u : User) (id : Key) (input : ConfirmDto) (context : OperationContext) (fresh : Fresh)
      (db : Db) (r : Confirmation) (db' : Db)
      → P.find_unique id db.users ≡ some u
      → confirm_new (reconciliation_snapshot (row_of id db u)) id input context fresh db
        ≡ ok (r, db')
      → Confirmed id input context fresh db r db'
  unfolding confirm_new
  confirm_new-ok u id input context fresh db r db' found h =
      reject_if-elim _ _ _ _ h λ divergent h1. >>=-elim _ _ _ h1 λ audit db1 run1 h2.
        >>=-elim _ _ _ h2 λ events db2 run2 h3.
          let a = record_audit-ok _ _ _ db audit db1 run1 in
          let c = create_compensations-ok _ _ id input context fresh db1 events db2 run2 in
          let last = pure-ok _ db2 h3 in
          let same : P.find_many db1.point_events ≡ P.find_many db.point_events =
            ground (arith, a.state) in
          rw last.1 (record {
            user = u;
            found = found;
            divergent = divergent;
            appended = Appended-before same c.appended;
            frame = ground (arith, a.state, c.frame);
          })

  record Locked (id : Key) (db : Db) (o : Option ReconciliationRow) (db' : Db) : Type 0 where
    pub state : db' ≡ db
    pub row :
        (w : ReconciliationRow)
        → o ≡ some w
        → (u : User) × (P.find_unique id db.users ≡ some u) × (w ≡ row_of id db u)

  lock_reconciliation-ok :
      (id : Key) (db : Db) (o : Option ReconciliationRow) (db' : Db)
      → lock_reconciliation id db ≡ ok (o, db')
      → Locked id db o db'
  unfolding lock_reconciliation
  lock_reconciliation-ok id db o db' h =
      elim (Option-cases (only_participant (P.find_unique id db.users))) [
        | inl missing ↦ record {
          state = ground (arith, missing);
          row = λ w given. absurd (ground (arith, missing));
        }
        | inr (u, found) ↦
            let there = only_participant-some (P.find_unique id db.users) u found in
            record {
              state = ground (arith, found);
              row = λ w given. (u, there, ground (arith, found, given));
            }
      ]

  answers-ok :
      (x : Result Confirmation) (db : Db) {r : Confirmation} {db' : Db}
      → answers x db ≡ ok (r, db')
      → (x ≡ ok r) × (db' ≡ db)
  answers-ok (ok r) db h = ground arith
  answers-ok (err e) db h = absurd (cc)

  pub confirm_tx-ok :
      (id : Key) (input : ConfirmDto) (context : OperationContext) (fresh : Fresh) (db : Db)
      (r : Confirmation) (db' : Db)
      → confirm_tx id input context fresh db ≡ ok (r, db')
      → Answered input.idempotency_key id input context db r db'
        ⊎ Confirmed id input context fresh db r db'
  unfolding confirm_tx
  confirm_tx-ok id input context fresh db r db' h = >>=-elim _ _ _ h λ o db1 run1 h0.
      let l = lock_reconciliation-ok id db o db1 run1 in
      or_throw-elim _ _ _ _ h0 λ w given h1. reads-elim _ _ _ h1 λ h2.
        let (u, found, row) = l.row w given in
        let h3 : confirm_or_replay (find_compensation_by_key input.idempotency_key db)
              (row_of id db u) id input context fresh db
            ≡ ok (r, db') =
          ground (arith, l.state, row, h2) in
        elim (Option-cases (find_compensation_by_key input.idempotency_key db)) [
          | inl no_event ↦ inr (
              confirm_new-ok u id input context fresh db r db' found (ground (arith, no_event, h3)))
          | inr (event, existing) ↦
              let given =
                answers-ok (replay_in db event id input context) db {r = r} {db' = db'}
                  (ground (arith, existing, h3)) in
              inl
                (record { event = event; existing = existing; answered = given.0; frame = given.1 })
        ]
