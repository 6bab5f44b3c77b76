-- ===== src/Adjustments/Settled.antt =====
-- What `adjust` and `reverse` have done when their transactions returned: they answered from the
-- event that already has the key, or posted one event that leaves no balance below zero.
use semcomp2026_gameficacao.Prelude.{
  ◌⊎◌, ◌≡◌, true, false, Option, none, some, arith, Option-cases, inl, inr,
}
use semcomp2026_gameficacao.Database.{Prisma}
use semcomp2026_gameficacao.Database.Schema.{Key, Fresh, User, PointEvent}
use semcomp2026_gameficacao.Database.Failure.{Result, ok, err}
use semcomp2026_gameficacao.Database.Tx.{Db}
use semcomp2026_gameficacao.Database.Inversion.{
  >>=-elim, reads-elim, or_throw-elim, reject_if-elim, pure-ok,
}
use semcomp2026_gameficacao.Audit.{event_of}
use semcomp2026_gameficacao.Audit.Contract.{AuditEvent, OperationContext}
use semcomp2026_gameficacao.Ledger.{is_some}
use semcomp2026_gameficacao.Adjustments.Repository.{
  AdjustmentEvent, adjustment_event, lock_participant, lock_point_event, find_by_idempotency_key,
}
use semcomp2026_gameficacao.Adjustments.Replay.{
  AdjustmentDto, ReversalDto, Adjustment, is_eligible_original, replay, replay_reversal,
}
use semcomp2026_gameficacao.Adjustments.Posted.{Posted, posted-ok, only_participant-some}
use semcomp2026_gameficacao.Adjustments.Service.{
  reverse_or_replay, adjustment_input, adjustment_audit, reversal_input, reversal_audit, adjust_new,
  adjust_tx, reverse_new, reverse_tx, returns,
}

module _ ⦃P : Prisma⦄ where
  abbrev pub adjusted_event : Key → AdjustmentDto → OperationContext → Fresh → PointEvent
  adjusted_event id input context fresh = adjustment_event (adjustment_input id input context fresh)

  abbrev pub adjusted_audit : User → Key → AdjustmentDto → OperationContext → Fresh → AuditEvent
  adjusted_audit u id input context fresh =
      event_of fresh.audit_event_id fresh.now (adjustment_audit u id input context fresh)

  adjust_new-ok :
      (u : User) (id : Key) (input : AdjustmentDto) (context : OperationContext) (fresh : Fresh)
      (db : Db) (r : Adjustment) (db' : Db)
      → P.find_unique id db.users ≡ some u
      → adjust_new u id input context fresh db ≡ ok (r, db')
      → Posted
          (adjusted_event id input context fresh)
          (adjusted_audit u id input context fresh)
          db
          r
          db'
  unfolding adjust_new
  adjust_new-ok u id input context fresh db r db' found h = reject_if-elim _ _ _ _ h λ covered h1.
      >>=-elim _ _ _ h1 λ updated db1 run1 h2. >>=-elim _ _ _ h2 λ audit db2 run2 h3.
        >>=-elim _ _ _ h3 λ event db3 run3 h4.
          let i = adjustment_input id input context fresh in
          let last = pure-ok _ db3 h4 in
          rw last.0 (
            rw last.1
              (posted-ok u i _ _ _ db db1 db2 db3 updated audit event found covered run1 run2 run3))

  abbrev pub reversed_event : PointEvent → ReversalDto → OperationContext → Fresh → PointEvent
  reversed_event original input context fresh =
      adjustment_event (reversal_input original input context fresh)

  abbrev pub reversed_audit :
      User → PointEvent → ReversalDto → OperationContext → Fresh → AuditEvent
  reversed_audit u original input context fresh =
      event_of fresh.audit_event_id fresh.now (reversal_audit u original input context fresh)

  pub record Answered (found : Option AdjustmentEvent) (db : Db) (r : Adjustment) (db' : Db)
      (answer : AdjustmentEvent → Result Adjustment) : Type 0 where
    pub event : AdjustmentEvent
    pub existing : found ≡ some event
    pub answered : answer event ≡ ok r
    pub frame : db' ≡ db

  pub record Adjusted (id : Key) (input : AdjustmentDto) (context : OperationContext)
      (fresh : Fresh) (db : Db) (r : Adjustment) (db' : Db) : Type 0 where
    pub user : User
    pub locked : lock_participant id db ≡ some user
    pub found : P.find_unique id db.users ≡ some user
    pub posted :
        Posted
          (adjusted_event id input context fresh)
          (adjusted_audit user id input context fresh)
          db
          r
          db'

  pub record Reversed (id : Key) (input : ReversalDto) (context : OperationContext) (fresh : Fresh)
      (db : Db) (r : Adjustment) (db' : Db) : Type 0 where
    pub original : AdjustmentEvent
    pub locked : lock_point_event id db ≡ some original
    pub eligible : is_eligible_original original ≡ true
    pub open_before : is_some original.reversal ≡ false
    pub user : User
    pub posted :
        Posted
          (reversed_event original.event input context fresh)
          (reversed_audit user original.event input context fresh)
          db
          r
          db'

  returns-ok :
      (x : Result Adjustment) (db : Db) {r : Adjustment} {db' : Db}
      → returns x db ≡ ok (r, db')
      → (x ≡ ok r) × (db' ≡ db)
  returns-ok (ok r) db h = ground arith
  returns-ok (err e) db h = absurd (cc)

  pub adjust_tx-ok :
      (id : Key) (input : AdjustmentDto) (context : OperationContext) (fresh : Fresh) (db : Db)
      (r : Adjustment) (db' : Db)
      → adjust_tx id input context fresh db ≡ ok (r, db')
      → Answered
          (find_by_idempotency_key input.idempotency_key db)
          db
          r
          db'
          (λ e. replay e id input context)
        ⊎ Adjusted id input context fresh db r db'
  unfolding adjust_tx
  adjust_tx-ok id input context fresh db r db' h = reads-elim _ _ _ h λ h0.
      or_throw-elim _ _ _ _ h0 λ user locked h1. reads-elim _ _ _ h1 λ h2.
        let found = only_participant-some (P.find_unique id db.users) user locked in
        elim (Option-cases (find_by_idempotency_key input.idempotency_key db)) [
          | inl no_event ↦ inr (record {
            user = user;
            locked = locked;
            found = found;
            posted =
                adjust_new-ok user id input context fresh db r db' found (ground (arith, no_event));
          })
          | inr (event, existing) ↦
              let given =
                returns-ok (replay event id input context) db {r = r} {db' = db'}
                  (ground (arith, existing)) in
              inl
                (record { event = event; existing = existing; answered = given.0; frame = given.1 })
        ]

  reverse_new-ok :
      (original : AdjustmentEvent) (id : Key) (input : ReversalDto) (context : OperationContext)
      (fresh : Fresh) (db : Db) (r : Adjustment) (db' : Db)
      → lock_point_event id db ≡ some original
      → is_eligible_original original ≡ true
      → is_some original.reversal ≡ false
      → reverse_new original.event input context fresh db ≡ ok (r, db')
      → Reversed id input context fresh db r db'
  unfolding reverse_new
  reverse_new-ok original id input context fresh db r db' locked eligible open_before h =
      reads-elim _ _ _ h λ h0. or_throw-elim _ _ _ _ h0 λ user user_locked h1.
        reject_if-elim _ _ _ _ h1 λ covered h2. >>=-elim _ _ _ h2 λ updated db1 run1 h3.
          >>=-elim _ _ _ h3 λ audit db2 run2 h4. >>=-elim _ _ _ h4 λ event db3 run3 h5.
            let i = reversal_input original.event input context fresh in
            let last = pure-ok _ db3 h5 in
            let found = only_participant-some (P.find_unique i.user_id db.users) user user_locked in
            record {
              original = original;
              locked = locked;
              eligible = eligible;
              open_before = open_before;
              user = user;
              posted = rw last.0 (
                  rw last.1 (
                    posted-ok user i _ _ _ db db1 db2 db3 updated audit event found covered run1
                      run2 run3));
            }

  pub reverse_tx-ok :
      (id : Key) (input : ReversalDto) (context : OperationContext) (fresh : Fresh) (db : Db)
      (r : Adjustment) (db' : Db)
      → reverse_tx id input context fresh db ≡ ok (r, db')
      → Answered
          (find_by_idempotency_key input.idempotency_key db)
          db
          r
          db'
          (λ e. replay_reversal e id input context)
        ⊎ Reversed id input context fresh db r db'
  unfolding reverse_tx
  reverse_tx-ok id input context fresh db r db' h = reads-elim _ _ _ h λ h0.
      or_throw-elim _ _ _ _ h0 λ original locked h1. reject_if-elim _ _ _ _ h1 λ eligible h2.
        reads-elim _ _ _ h2 λ h3.
          elim (Option-cases (find_by_idempotency_key input.idempotency_key db)) [
            | inl no_event ↦
                let run = reverse_or_replay none original id input context fresh in
                let h4 : run db ≡ ok (r, db') = ground (arith, no_event, h3) in
                reject_if-elim _ _ _ _ h4 λ open_before h5. inr (
                  reverse_new-ok original id input context fresh db r db' locked (ground arith)
                    open_before h5)
            | inr (event, existing) ↦
                let given =
                  returns-ok (replay_reversal event id input context) db {r = r} {db' = db'}
                    (ground (arith, existing)) in
                inl (record {
                  event = event;
                  existing = existing;
                  answered = given.0;
                  frame = given.1;
                })
          ]
