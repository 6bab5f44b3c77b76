-- ===== src/Adjustments/Replayed.antt =====
-- `adjust` of admin-adjustments.service.ts, sent again under its idempotency key.
use semcomp2026_gameficacao.Prelude.{
  ◌≡◌, inl, inr, true, false, Option, none, some, arith, ==-refl, eqb_ℤ-refl,
}
use semcomp2026_gameficacao.Text.{trim, text_eq_refl}
use semcomp2026_gameficacao.Text.Trim.{trim-trim}
use semcomp2026_gameficacao.Database.{Prisma}
use semcomp2026_gameficacao.Database.Schema.{Key, Fresh, User}
use semcomp2026_gameficacao.Database.Failure.{ok, err, unique_constraint}
use semcomp2026_gameficacao.Database.Tx.{Db, ◌>>=◌}
use semcomp2026_gameficacao.Audit.Contract.{OperationContext}
use semcomp2026_gameficacao.Ledger.{credited}
use semcomp2026_gameficacao.Adjustments.Repository.{
  AdjustmentEvent, lock_participant, find_by_idempotency_key, select, has_key,
}
use semcomp2026_gameficacao.Adjustments.Replay.{AdjustmentDto, Adjustment, replay}
use semcomp2026_gameficacao.Adjustments.Service.{adjust, adjust_tx, trimmed, winner_or}
use semcomp2026_gameficacao.Adjustments.Settled.{
  Adjusted, adjusted_event, adjusted_audit, adjust_tx-ok,
}

abbrev pub replayed : Adjustment → Adjustment
replayed r = record r { replayed = true }

module _ ⦃P : Prisma⦄ where
  -- The participant can still be locked.
  locked_again :
      (id : Key) (input : AdjustmentDto) (context : OperationContext) (fresh : Fresh) (db : Db)
      (r : Adjustment) (db' : Db) (a : Adjusted id input context fresh db r db')
      → lock_participant id db' ≡ some (credited input.points_delta input.xp_delta a.user)
  locked_again id input context fresh db r db' a =
      ground
        (arith, a.locked, a.found, a.posted.posting.users id, a.posted.posting.found, ==-refl id)

  found_again :
      (id : Key) (input : AdjustmentDto) (context : OperationContext) (fresh : Fresh) (db : Db)
      (r : Adjustment) (db' : Db) (a : Adjusted id input context fresh db r db')
      → find_by_idempotency_key input.idempotency_key db'
        ≡ some (select db' (adjusted_event id input context fresh))
  found_again id input context fresh db r db' a = ground (
    arith,
    a.posted.posting.events,
    P.find_first-eq_find? (has_key input.idempotency_key) db'.point_events,
    ==-refl input.idempotency_key,
  )

  audited_again :
      (id : Key) (input : AdjustmentDto) (context : OperationContext) (fresh : Fresh) (db : Db)
      (r : Adjustment) (db' : Db) (a : Adjusted id input context fresh db r db')
      → P.find_unique fresh.audit_event_id db'.audit_events
        ≡ some (adjusted_audit a.user id input context fresh)
  audited_again id input context fresh db r db' a =
      let row = adjusted_audit a.user id input context fresh in
      ground (
        arith,
        a.posted.audits,
        P.find_unique-create row.id row.id row db.audit_events,
        ==-refl row.id,
      )

  replay_again :
      (id : Key) (input : AdjustmentDto) (context : OperationContext) (fresh : Fresh) (db : Db)
      (r : Adjustment) (db' : Db) (a : Adjusted id input context fresh db r db')
      → trim input.reason ≡ input.reason
      → replay (select db' (adjusted_event id input context fresh)) id input context
        ≡ ok (replayed r)
  replay_again id input context fresh db r db' a clean = ground (
    arith,
    audited_again id input context fresh db r db' a,
    clean,
    a.posted.returned,
    a.found,
    a.posted.posting.found,
    ==-refl id,
    ==-refl context.actor_admin_id,
    eqb_ℤ-refl input.points_delta,
    eqb_ℤ-refl input.xp_delta,
    text_eq_refl input.reason,
  )

  replay-replayed :
      (e : AdjustmentEvent) (id : Key) (input : AdjustmentDto) (context : OperationContext)
      (r : Adjustment)
      → replay e id input context ≡ ok r
      → r.replayed ≡ true
  replay-replayed e id input context r h = ground arith

  winner-replayed :
      (o : Option AdjustmentEvent) (id : Key) (input : AdjustmentDto) (context : OperationContext)
      (r : Adjustment)
      → winner_or o (λ e. replay e id input context) (err unique_constraint) ≡ ok r
      → r.replayed ≡ true
  winner-replayed none id input context r h = absurd (cc)
  winner-replayed (some e) id input context r h = replay-replayed e id input context r h

  -- A new adjustment, one that is no replay, came from its transaction.
  pub Adjusted-ok :
      (id : Key) (dto : AdjustmentDto) (context : OperationContext) (fresh : Fresh) (db : Db)
      (r : Adjustment)
      → (adjust id dto context fresh db).0 ≡ ok r
      → r.replayed ≡ false
      → Adjusted id (trimmed dto) context fresh db r (adjust id dto context fresh db).1
  unfolding adjust
  Adjusted-ok id dto context fresh db r h new =
      let db' = (adjust id dto context fresh db).1 in
      let input = trimmed dto in
      let never =
        winner-replayed (find_by_idempotency_key input.idempotency_key db) id input context r in
      let run : adjust_tx id input context fresh db ≡ ok (r, db') = ground (arith, never) in
      elim (adjust_tx-ok id input context fresh db r db' run) [
        | inl answered ↦
            let again = replay-replayed answered.event id input context r answered.answered in
            absurd (ground (arith, again, new))
        | inr adjusted ↦ adjusted
      ]

  second :
      (id : Key) (dto : AdjustmentDto) (context : OperationContext) (later : Fresh) (db : Db)
      (u : User) (e : AdjustmentEvent) (r : Adjustment)
      → lock_participant id db ≡ some u
      → find_by_idempotency_key dto.idempotency_key db ≡ some e
      → replay e id (trimmed dto) context ≡ ok (replayed r)
      → adjust id dto context later db ≡ (ok (replayed r), db)
  unfolding adjust adjust_tx ◌>>=◌
  second id dto context later db u e r locked found answer = ground arith

  -- If an adjustment was made now, not replayed, then the same request sent again at any later time
  -- changes nothing and returns the same reply, marked as replayed.
  pub adjust-adjust :
      (id : Key) (dto : AdjustmentDto) (context : OperationContext) (fresh later : Fresh) (db : Db)
      (r : Adjustment)
      → (adjust id dto context fresh db).0 ≡ ok r
      → r.replayed ≡ false
      → adjust id dto context later (adjust id dto context fresh db).1
        ≡ (ok (replayed r), (adjust id dto context fresh db).1)
  adjust-adjust id dto context fresh later db r h new =
      let db' = (adjust id dto context fresh db).1 in
      let input = trimmed dto in
      let a = Adjusted-ok id dto context fresh db r h new in
      second id dto context later db' _ _ r (locked_again id input context fresh db r db' a)
        (found_again id input context fresh db r db' a)
        (replay_again id input context fresh db r db' a (trim-trim dto.reason))
