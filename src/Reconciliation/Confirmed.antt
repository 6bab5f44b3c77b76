-- ===== src/Reconciliation/Confirmed.antt =====
-- A new confirmation, and what it leaves.
use semcomp2026_gameficacao.Prelude.{
  ◌≡◌, true, false, Option, none, some, ℤ, ◌+ℤ◌, ◌-ℤ◌, pos, arith, refl, ap, sym, ◌∙◌, inl, inr,
  sub_add_cancel, ◌==◌,
}
use semcomp2026_gameficacao.Database.{Prisma}
use semcomp2026_gameficacao.Database.Schema.{Key, Fresh, User}
use semcomp2026_gameficacao.Database.Failure.{ok, err, conflict, already_reconciled}
use semcomp2026_gameficacao.Database.Tx.{Db, ◌>>=◌}
use semcomp2026_gameficacao.Audit.Contract.{OperationContext}
use semcomp2026_gameficacao.Ledger.Sums.{ledger_points, ledger_xp, IsReconciled}
use semcomp2026_gameficacao.Ledger.Appended.{
  ledger_points-Appended, ledger_xp-Appended, ledger-Appended-others,
}
use semcomp2026_gameficacao.Reconciliation.Repository.{
  CompensationEvent, reconciliation_row, find_compensation_by_key, lock_reconciliation, is_safe,
}
use semcomp2026_gameficacao.Actions.Repository.{only_participant}
use semcomp2026_gameficacao.Reconciliation.Snapshot.{reconciliation_snapshot}
use semcomp2026_gameficacao.Reconciliation.Replay.{ConfirmDto, Confirmation, replay_confirmation}
use semcomp2026_gameficacao.Reconciliation.Service.{
  confirm, confirm_tx, confirm_new, trimmed_confirm, compensations, winner_answers, replay_in,
}
use semcomp2026_gameficacao.Reconciliation.Settled.{
  Confirmed, confirm_tx-ok, compensation_events-IsOf, compensation_events-IsNotOf,
  compensation_events-sums,
}

module _ ⦃P : Prisma⦄ where
  replay-replayed :
      (e : CompensationEvent) (id : Key) (input : ConfirmDto) (context : OperationContext) (db : Db)
      (r : Confirmation)
      → replay_in db e id input context ≡ ok r
      → r.replayed ≡ true
  unfolding replay_confirmation
  replay-replayed e id input context db r h = ground arith

  winner-replayed :
      (o : Option CompensationEvent) (id : Key) (input : ConfirmDto) (context : OperationContext)
      (db : Db) (r : Confirmation)
      → winner_answers o id input context db ≡ ok r
      → r.replayed ≡ true
  winner-replayed none id input context db r h = absurd (cc)
  winner-replayed (some e) id input context db r h = replay-replayed e id input context db r h

  -- A new confirmation, one that is no replay, came from its transaction.
  pub Confirmed-ok :
      (id : Key) (dto : ConfirmDto) (context : OperationContext) (fresh : Fresh) (db : Db)
      (r : Confirmation)
      → (confirm id dto context fresh db).0 ≡ ok r
      → r.replayed ≡ false
      → Confirmed id (trimmed_confirm dto) context fresh db r (confirm id dto context fresh db).1
  unfolding confirm
  Confirmed-ok id dto context fresh db r h new =
      let db' = (confirm id dto context fresh db).1 in
      let input = trimmed_confirm dto in
      let never =
        winner-replayed (find_compensation_by_key input.idempotency_key db) id input context db r in
      let run : confirm_tx id input context fresh db ≡ ok (r, db') = ground (arith, never) in
      elim (confirm_tx-ok id input context fresh db r db' run) [
        | inl answered ↦
            let again = replay-replayed answered.event id input context db r answered.answered in
            absurd (ground (arith, again, new))
        | inr confirmed ↦ confirmed
      ]

  Confirmed-sums :
      (id : Key) (input : ConfirmDto) (context : OperationContext) (fresh : Fresh) (db : Db)
      (r : Confirmation) (db' : Db) (c : Confirmed id input context fresh db r db')
      → (c.user.points ≡ ledger_points id (P.find_many db'.point_events))
        × (c.user.xp ≡ ledger_xp id (P.find_many db'.point_events))
  Confirmed-sums id input context fresh db r db' c =
      let old = P.find_many db.point_events in
      let before = reconciliation_snapshot (reconciliation_row id old c.user) in
      let key = some input.idempotency_key in
      let parts = compensations before fresh in
      let own = compensation_events-IsOf parts key id input context fresh in
      let sums = compensation_events-sums before key id input context fresh in
      (
        sym (
            ledger_points-Appended id c.appended own
            ∙ ap (λ (z : ℤ). z +ℤ ledger_points id old) sums.0
            ∙ sub_add_cancel c.user.points (ledger_points id old)),
        sym (
            ledger_xp-Appended id c.appended own
            ∙ ap (λ (z : ℤ). z +ℤ ledger_xp id old) sums.1
            ∙ sub_add_cancel c.user.xp (ledger_xp id old)),
      )

  -- If a confirmation was made now, not replayed, then the row of the participant is as it was and its
  -- points and XP are the sums of the participant's events, and every other participant's sums are
  -- as they were.
  pub confirm-reconciled :
      (id : Key) (dto : ConfirmDto) (context : OperationContext) (fresh : Fresh) (db : Db)
      (r : Confirmation)
      → (confirm id dto context fresh db).0 ≡ ok r
      → r.replayed ≡ false
      → ((confirm id dto context fresh db).1.users ≡ db.users)
        × ((u : User) × (P.find_unique id db.users ≡ some u)
            × (u.points
                ≡ ledger_points id (P.find_many (confirm id dto context fresh db).1.point_events))
            × (u.xp ≡ ledger_xp id (P.find_many (confirm id dto context fresh db).1.point_events)))
        × ((j : Key)
            → (id == j) ≡ false
            → (ledger_points j (P.find_many (confirm id dto context fresh db).1.point_events)
                ≡ ledger_points j (P.find_many db.point_events))
              × (ledger_xp j (P.find_many (confirm id dto context fresh db).1.point_events)
                  ≡ ledger_xp j (P.find_many db.point_events)))
  confirm-reconciled id dto context fresh db r h new =
      let db' = (confirm id dto context fresh db).1 in
      let input = trimmed_confirm dto in
      let c = Confirmed-ok id dto context fresh db r h new in
      let sums = Confirmed-sums id input context fresh db r db' c in
      let others = λ (j : Key) (other : (id == j) ≡ false).
        ledger-Appended-others j c.appended
          (compensation_events-IsNotOf _ _ id j input context fresh other) in
      (ground (arith, c.frame), (c.user, c.found, sums.0, sums.1), others)

  -- A confirmation is made only where the stored balance and the ledger differ.
  pub Confirmed-IsReconciled :
      (id : Key) (input : ConfirmDto) (context : OperationContext) (fresh : Fresh) (db : Db)
      (r : Confirmation) (db' : Db)
      → Confirmed id input context fresh db r db'
      → IsReconciled db
      → IsReconciled db'
  unfolding ◌-ℤ◌
  Confirmed-IsReconciled id input context fresh db r db' c h =
      absurd (ground (arith, c.divergent, h.points id c.user c.found, h.xp id c.user c.found))

  sub_self : (a b : ℤ) → a ≡ b → a -ℤ b ≡ pos 0
  unfolding ◌-ℤ◌
  sub_self a b h = ground arith

  lock_reconciliation-safe :
      (id : Key) (db : Db) (u : User)
      → only_participant (P.find_unique id db.users) ≡ some u
      → is_safe (ledger_points id (P.find_many db.point_events)) ≡ true
      → is_safe (ledger_xp id (P.find_many db.point_events)) ≡ true
      → lock_reconciliation id db
        ≡ ok (some (reconciliation_row id (P.find_many db.point_events) u), db)
  unfolding lock_reconciliation
  lock_reconciliation-safe id db u found points xp = rw (found) (rw (points, xp) refl)

  confirm_tx-consistent :
      (id : Key) (input : ConfirmDto) (context : OperationContext) (fresh : Fresh) (db : Db)
      (u : User)
      → only_participant (P.find_unique id db.users) ≡ some u
      → u.points ≡ ledger_points id (P.find_many db.point_events)
      → u.xp ≡ ledger_xp id (P.find_many db.point_events)
      → is_safe u.points ≡ true
      → is_safe u.xp ≡ true
      → find_compensation_by_key input.idempotency_key db ≡ none
      → confirm_tx id input context fresh db ≡ err (conflict already_reconciled)
  unfolding confirm_tx confirm_new ◌>>=◌
  confirm_tx-consistent id input context fresh db u found points xp safe_points safe_xp unused =
      let locked =
        lock_reconciliation-safe id db u found (ap is_safe (sym points) ∙ safe_points)
          (ap is_safe (sym xp) ∙ safe_xp) in
      let points_zero = sub_self u.points (ledger_points id (P.find_many db.point_events)) points in
      let xp_zero = sub_self u.xp (ledger_xp id (P.find_many db.point_events)) xp in ground arith

  -- A participant whose points and XP are the sums of the participant's events, within the safe
  -- integers, gets the conflict that says so under a new key, and the database does not change.
  pub confirm-consistent :
      (id : Key) (dto : ConfirmDto) (context : OperationContext) (fresh : Fresh) (db : Db)
      (u : User)
      → only_participant (P.find_unique id db.users) ≡ some u
      → u.points ≡ ledger_points id (P.find_many db.point_events)
      → u.xp ≡ ledger_xp id (P.find_many db.point_events)
      → is_safe u.points ≡ true
      → is_safe u.xp ≡ true
      → find_compensation_by_key dto.idempotency_key db ≡ none
      → confirm id dto context fresh db ≡ (err (conflict already_reconciled), db)
  unfolding confirm
  confirm-consistent id dto context fresh db u found points xp safe_points safe_xp unused =
      let failed =
        confirm_tx-consistent id (trimmed_confirm dto) context fresh db u found points xp
          safe_points safe_xp unused in
      ground arith
