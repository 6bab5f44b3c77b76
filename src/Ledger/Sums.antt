-- ===== src/Ledger/Sums.antt =====
-- The balance that the ledger gives a participant, and when the stored balances agree with it.
use semcomp2026_gameficacao.Prelude.{
  ◌≡◌, some, List, [], ◌∷◌, ◌==◌, if◌then◌else◌, ℤ, pos, ◌+ℤ◌, ◌≤ℤ◌,
}
use semcomp2026_gameficacao.Database.{Prisma}
use semcomp2026_gameficacao.Database.Schema.{Key, User, PointEvent}
use semcomp2026_gameficacao.Database.Tx.{Db}

-- `SUM("points")` and `SUM("xpDelta")` over the events of one user.
abbrev pub ledger_points : Key → List PointEvent → ℤ
ledger_points user_id [] = pos 0
ledger_points user_id (e ∷ es) =
    if e.user_id == user_id then e.points +ℤ ledger_points user_id es else ledger_points user_id es

abbrev pub ledger_xp : Key → List PointEvent → ℤ
ledger_xp user_id [] = pos 0
ledger_xp user_id (e ∷ es) =
    if e.user_id == user_id then e.xp_delta +ℤ ledger_xp user_id es else ledger_xp user_id es

module _ ⦃P : Prisma⦄ where
  -- Every stored balance is the sum of the user's events.
  pub record IsReconciled (db : Db) : Type 0 where
    pub points :
        (j : Key) (u : User)
        → P.find_unique j db.users ≡ some u
        → u.points ≡ ledger_points j (P.find_many db.point_events)
    pub xp :
        (j : Key) (u : User)
        → P.find_unique j db.users ≡ some u
        → u.xp ≡ ledger_xp j (P.find_many db.point_events)

  -- No stored balance is negative.
  pub record IsSolvent (db : Db) : Type 0 where
    pub points : (j : Key) (u : User) → P.find_unique j db.users ≡ some u → pos 0 ≤ℤ u.points
    pub xp : (j : Key) (u : User) → P.find_unique j db.users ≡ some u → pos 0 ≤ℤ u.xp
