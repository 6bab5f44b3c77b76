-- ===== src/Adjustments/ReversedOnce.antt =====
-- `reverse` of admin-adjustments.service.ts, called twice for one event under two keys.
use semcomp2026_gameficacao.Prelude.{
  ◌≡◌, refl, List, true, false, Option, none, some, arith, ap, sym, ◌∙◌, ==-refl, ◌==◌, find?,
  find?-passes, ==→eq, Bool-cases, inl, inr,
}
use mathlib.Core.Option
use semcomp2026_gameficacao.Database.{Prisma}
use semcomp2026_gameficacao.Database.Schema.{Key, Fresh, PointEvent}
use semcomp2026_gameficacao.Database.Failure.{ok, err, conflict, already_reversed}
use semcomp2026_gameficacao.Database.Tx.{Db, ◌>>=◌}
use semcomp2026_gameficacao.Audit.Contract.{AuditEvent, OperationContext}
use semcomp2026_gameficacao.Ledger.{is_some}
use semcomp2026_gameficacao.Adjustments.Repository.{
  AdjustmentEvent, select, audit_of, reverses, lock_point_event, find_by_idempotency_key,
}
use semcomp2026_gameficacao.Adjustments.Replay.{
  ReversalDto, Adjustment, is_eligible_original, has_operation, is_adjustment,
}
use semcomp2026_gameficacao.Adjustments.Service.{reverse, reverse_tx, trimmed_reversal}
use semcomp2026_gameficacao.Adjustments.Settled.{Reversed, reversed_event}
use semcomp2026_gameficacao.Adjustments.Undone.{Reversed-ok}

-- What is locked is the event of that id, with what it selects.
locked_event :
    ⦃P : Prisma⦄ (o : Option PointEvent) (db : Db) {original : AdjustmentEvent}
    → Option.map (select db) o ≡ some original
    → (o ≡ some original.event) × (original ≡ select db original.event)
locked_event none db h = absurd (cc)
locked_event (some e) db h = (ground arith, ground arith)

-- Two ids, one found in a list and one not, differ.
not_new :
    (i j : Key) {e : PointEvent} (es : List PointEvent)
    → find? (λ (x : PointEvent). j == x.id) es ≡ none
    → find? (λ (x : PointEvent). i == x.id) es ≡ some e
    → (i == j) ≡ false
not_new i j es missing found = elim (Bool-cases (i == j)) [
  | inl same ↦ absurd (ground (arith, ==→eq i j, missing, found, same))
  | inr other ↦ other
]

audited :
    (o : Option AuditEvent) → has_operation is_adjustment o ≡ true → (a : AuditEvent) × (o ≡ some a)
audited none h = absurd (cc)
audited (some a) h = (a, refl)

module _ ⦃P : Prisma⦄ where
  -- An audit event that there was is found after one more was written under an unused id.
  audit_of-kept :
      (k : Option Key) (a : AuditEvent) (db db' : Db) {old : AuditEvent}
      → db'.audit_events ≡ P.create a.id a db.audit_events
      → P.find_unique a.id db.audit_events ≡ none
      → audit_of k db ≡ some old
      → audit_of k db' ≡ some old
  audit_of-kept none a db db' table new h = absurd (cc)
  audit_of-kept (some k) a db db' table new h =
      ground (arith, table, P.find_unique-create a.id k a db.audit_events, ==→eq a.id k, new, h)

  refused :
      (id : Key) (dto : ReversalDto) (context : OperationContext) (fresh : Fresh) (db : Db)
      (original : AdjustmentEvent)
      → lock_point_event id db ≡ some original
      → is_eligible_original original ≡ true
      → is_some original.reversal ≡ true
      → find_by_idempotency_key dto.idempotency_key db ≡ none
      → reverse id dto context fresh db ≡ (err (conflict already_reversed), db)
  unfolding reverse reverse_tx ◌>>=◌
  refused id dto context fresh db original locked eligible reversed unused = ground arith

  module _ (id : Key) (input : ReversalDto) (context : OperationContext) (fresh : Fresh) (db : Db)
      (r : Adjustment) (db' : Db) (v : Reversed id input context fresh db r db') where
    found_before :
        P.find_first (λ (e : PointEvent). id == e.id) db.point_events ≡ some v.original.event
    found_before = (locked_event _ db v.locked).0

    original_id : (id == v.original.event.id) ≡ true
    original_id =
        find?-passes (λ (e : PointEvent). id == e.id) (P.find_many db.point_events)
          (sym (P.find_first-eq_find? (λ (e : PointEvent). id == e.id) db.point_events)
            ∙ found_before)

    found_after :
        P.find_first (λ (e : PointEvent). id == e.id) db'.point_events ≡ some v.original.event
    found_after =
        let e = reversed_event v.original.event input context fresh in
        let other : (id == e.id) ≡ false =
          not_new id e.id (P.find_many db.point_events)
            (sym (P.find_first-eq_find? (λ (x : PointEvent). e.id == x.id) db.point_events)
              ∙ v.posted.new_event)
            (sym (P.find_first-eq_find? (λ (x : PointEvent). id == x.id) db.point_events)
              ∙ found_before) in
        P.find_first-eq_find? (λ (x : PointEvent). id == x.id) db'.point_events
        ∙ ap (find? (λ (x : PointEvent). id == x.id)) v.posted.posting.events
        ∙ rw (other) refl
        ∙ sym (P.find_first-eq_find? (λ (x : PointEvent). id == x.id) db.point_events)
        ∙ found_before

    eligible_after : is_eligible_original (select db' v.original.event) ≡ true
    eligible_after =
        let audit =
          audited (audit_of v.original.event.audit_event_id db)
            (ground (arith, v.eligible, (locked_event _ db v.locked).1)) in
        let kept =
          audit_of-kept v.original.event.audit_event_id _ db db' {old = audit.0} v.posted.audits
            v.posted.new_audit audit.1 in
        ground (arith, v.eligible, (locked_event _ db v.locked).1, kept, audit.1)

    reversed_after : is_some (select db' v.original.event).reversal ≡ true
    reversed_after = ground (
      arith,
      v.posted.posting.events,
      P.find_first-eq_find? (reverses v.original.event.id) db'.point_events,
      ==-refl v.original.event.id,
    )

  -- After an event was reversed, anew and not as a replay, a reversal of the same event under a key
  -- that no event has gets the conflict that says so, and the database does not change.
  pub reverse-reverse :
      (id : Key) (dto again : ReversalDto) (context by : OperationContext) (fresh later : Fresh)
      (db : Db) (r : Adjustment)
      → (reverse id dto context fresh db).0 ≡ ok r
      → r.replayed ≡ false
      → find_by_idempotency_key again.idempotency_key (reverse id dto context fresh db).1 ≡ none
      → reverse id again by later (reverse id dto context fresh db).1
        ≡ (err (conflict already_reversed), (reverse id dto context fresh db).1)
  reverse-reverse id dto again context by fresh later db r h new unused =
      let db' = (reverse id dto context fresh db).1 in
      let input = trimmed_reversal dto in
      let v = Reversed-ok id dto context fresh db r h new in
      refused id again by later db' (select db' v.original.event)
        (ap (Option.map (select db')) (found_after id input context fresh db r db' v))
        (eligible_after id input context fresh db r db' v)
        (reversed_after id input context fresh db r db' v) unused
