-- ===== src/Ledger/Posting.antt =====
-- A posting: one event enters the ledger, and the balance of its user moves by the event's amounts.
use semcomp2026_gameficacao.Prelude.{
  ◌≡◌, some, ◌∷◌, arith, ◌==◌, if◌then◌else◌, pos, ◌+ℤ◌, ◌≤ℤ◌, +ℤ_comm, ==→eq,
}
use semcomp2026_gameficacao.Database.{Prisma}
use semcomp2026_gameficacao.Database.Schema.{Key, User, PointEvent}
use semcomp2026_gameficacao.Database.Tx.{Db}
use semcomp2026_gameficacao.Ledger.{credited}
use semcomp2026_gameficacao.Ledger.Sums.{ledger_points, ledger_xp, IsReconciled, IsSolvent}

module _ ⦃P : Prisma⦄ where
  pub record Posting (e : PointEvent) (db db' : Db) : Type 0 where
    pub user : User
    pub found : P.find_unique e.user_id db.users ≡ some user
    pub users :
        (j : Key)
        → P.find_unique j db'.users ≡ (
            if e.user_id == j
            then some (credited e.points e.xp_delta user)
            else P.find_unique j db.users)
    pub events : P.find_many db'.point_events ≡ e ∷ P.find_many db.point_events

  pub Posting-IsReconciled :
      (e : PointEvent) (db db' : Db) → Posting e db db' → IsReconciled db → IsReconciled db'
  Posting-IsReconciled e db db' p h =
      let total = λ (j : Key). ledger_points j (P.find_many db.point_events) in
      let xp_total = λ (j : Key). ledger_xp j (P.find_many db.point_events) in
      record {
        points = λ j u at_j. rw p.events (
            ground (
              arith,
              p.users j,
              h.points j u,
              h.points e.user_id p.user p.found,
              ==→eq e.user_id j,
              +ℤ_comm e.points (total e.user_id),
            ));
        xp = λ j u at_j. rw p.events (
            ground (
              arith,
              p.users j,
              h.xp j u,
              h.xp e.user_id p.user p.found,
              ==→eq e.user_id j,
              +ℤ_comm e.xp_delta (xp_total e.user_id),
            ));
      }

  -- A posting that leaves its own user a balance of zero or more leaves no balance negative.
  pub Posting-IsSolvent :
      (e : PointEvent) (db db' : Db) (p : Posting e db db')
      → pos 0 ≤ℤ p.user.points +ℤ e.points
      → pos 0 ≤ℤ p.user.xp +ℤ e.xp_delta
      → IsSolvent db
      → IsSolvent db'
  Posting-IsSolvent e db db' p enough_points enough_xp h = record {
    points = λ j u at_j. ground (arith, p.users j, h.points j u);
    xp = λ j u at_j. ground (arith, p.users j, h.xp j u);
  }
