-- ===== src/Adjustments/Undone.antt =====
-- `adjust` of admin-adjustments.service.ts followed by `reverse` of its event.
use semcomp2026_gameficacao.Prelude.{
  ◌≡◌, inl, inr, true, false, arith, ==-refl, ==→eq, ◌==◌, ℤ, neg_ℤ, neg_ℤ-+ℤ-cancel,
}
use semcomp2026_gameficacao.Database.{Prisma}
use semcomp2026_gameficacao.Database.Schema.{Key, Fresh, User, PointEvent}
use semcomp2026_gameficacao.Database.Failure.{ok}
use semcomp2026_gameficacao.Database.Tx.{Db}
use semcomp2026_gameficacao.Audit.Contract.{OperationContext}
use semcomp2026_gameficacao.Ledger.{credited}
use semcomp2026_gameficacao.Adjustments.Repository.{AdjustmentEvent}
use semcomp2026_gameficacao.Adjustments.Replay.{
  AdjustmentDto, ReversalDto, Adjustment, replay_reversal,
}
use semcomp2026_gameficacao.Adjustments.Service.{
  adjust, reverse, reverse_tx, trimmed, trimmed_reversal,
}
use semcomp2026_gameficacao.Adjustments.Settled.{Adjusted, Reversed, adjusted_event, reverse_tx-ok}
use semcomp2026_gameficacao.Adjustments.Replayed.{Adjusted-ok}

credited-credited : (p x : ℤ) (u : User) → credited (neg_ℤ p) (neg_ℤ x) (credited p x u) ≡ u
credited-credited p x u = ground (arith, neg_ℤ-+ℤ-cancel u.points p, neg_ℤ-+ℤ-cancel u.xp x)

module _ ⦃P : Prisma⦄ where
  replay_reversal-replayed :
      (e : AdjustmentEvent) (id : Key) (input : ReversalDto) (context : OperationContext)
      (r : Adjustment)
      → replay_reversal e id input context ≡ ok r
      → r.replayed ≡ true
  replay_reversal-replayed e id input context r h = ground arith

  -- A new reversal, one that is no replay, came from its transaction.
  pub Reversed-ok :
      (id : Key) (dto : ReversalDto) (context : OperationContext) (fresh : Fresh) (db : Db)
      (r : Adjustment)
      → (reverse id dto context fresh db).0 ≡ ok r
      → r.replayed ≡ false
      → Reversed id (trimmed_reversal dto) context fresh db r (reverse id dto context fresh db).1
  unfolding reverse
  Reversed-ok id dto context fresh db r h new =
      let db' = (reverse id dto context fresh db).1 in
      let input = trimmed_reversal dto in
      let run : reverse_tx id input context fresh db ≡ ok (r, db') = ground (arith, new) in
      elim (reverse_tx-ok id input context fresh db r db' run) [
        | inl answered ↦
            let again =
              replay_reversal-replayed answered.event id input context r answered.answered in
            absurd (ground (arith, again, new))
        | inr reversed ↦ reversed
      ]

  Reversed-users :
      (id : Key) (input : AdjustmentDto) (context : OperationContext) (fresh : Fresh) (db : Db)
      (r : Adjustment) (db1 : Db) (back : ReversalDto) (by : OperationContext) (later : Fresh)
      (s : Adjustment) (db2 : Db)
      → Adjusted id input context fresh db r db1
      → Reversed r.point_event.id back by later db1 s db2
      → (j : Key) → P.find_unique j db2.users ≡ P.find_unique j db.users
  Reversed-users id input context fresh db r db1 back by later s db2 a v j =
      let e = adjusted_event id input context fresh in
      let key : r.point_event.id ≡ e.id = ground (arith, a.posted.returned) in
      let same : v.original.event ≡ e = ground (
        arith,
        key,
        v.locked,
        a.posted.posting.events,
        P.find_first-eq_find? (λ (x : PointEvent). r.point_event.id == x.id) db1.point_events,
        ==-refl e.id,
      ) in
      ground (
        arith,
        same,
        v.posted.posting.users j,
        v.posted.posting.found,
        a.posted.posting.users j,
        a.posted.posting.users id,
        a.posted.posting.found,
        credited-credited input.points_delta input.xp_delta a.posted.posting.user,
        ==→eq id j,
        ==-refl id,
      )

  -- If an adjustment was made and its event then reversed, both new and not replayed, every
  -- participant's row is as it was before.
  pub adjust-reverse :
      (id : Key) (dto : AdjustmentDto) (context : OperationContext) (fresh : Fresh) (db : Db)
      (r : Adjustment) (back : ReversalDto) (by : OperationContext) (later : Fresh) (s : Adjustment)
      → (adjust id dto context fresh db).0 ≡ ok r
      → r.replayed ≡ false
      → (reverse r.point_event.id back by later (adjust id dto context fresh db).1).0 ≡ ok s
      → s.replayed ≡ false
      → (j : Key)
      → P.find_unique j
          (reverse r.point_event.id back by later (adjust id dto context fresh db).1).1.users
        ≡ P.find_unique j db.users
  adjust-reverse id dto context fresh db r back by later s first new second newer j =
      let db1 = (adjust id dto context fresh db).1 in
      let db2 = (reverse r.point_event.id back by later db1).1 in
      Reversed-users id (trimmed dto) context fresh db r db1 (trimmed_reversal back) by later s db2
        (Adjusted-ok id dto context fresh db r first new)
        (Reversed-ok r.point_event.id back by later db1 s second newer) j
