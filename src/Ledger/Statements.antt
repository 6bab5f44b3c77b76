-- ===== src/Ledger/Statements.antt =====
-- What a successful statement has done.
use semcomp2026_gameficacao.Prelude.{◌≡◌, true, none, some, arith, ℤ, ◌+ℤ◌, Option-cases, inl, inr}
use semcomp2026_gameficacao.Database.{Prisma}
use semcomp2026_gameficacao.Database.Schema.{Key, User, PointEvent}
use semcomp2026_gameficacao.Database.Failure.{ok}
use semcomp2026_gameficacao.Database.Tx.{Db, fits_int4}
use semcomp2026_gameficacao.Ledger.{
  conflicts, event_checks, credited, create_point_event, increment_balance,
}

module _ ⦃P : Prisma⦄ where
  pub record Created (e : PointEvent) (db : Db) (r : PointEvent) (db' : Db) : Type 0 where
    pub row : r ≡ e
    pub checked : event_checks e ≡ true
    pub unique : P.find_first (conflicts e) db.point_events ≡ none
    pub state : db' ≡ record db { point_events = P.create e.id e db.point_events }

  pub create_point_event-ok :
      (e : PointEvent) (db : Db) (r : PointEvent) (db' : Db)
      → create_point_event e db ≡ ok (r, db')
      → Created e db r db'
  unfolding create_point_event
  create_point_event-ok e db r db' h = ground arith

  pub record Incremented (user_id : Key) (points xp : ℤ) (db : Db) (r : User) (db' : Db)
      : Type 0 where
    pub user : User
    pub found : P.find_unique user_id db.users ≡ some user
    pub row : r ≡ credited points xp user
    pub points_fit : fits_int4 (user.points +ℤ points) ≡ true
    pub xp_fits : fits_int4 (user.xp +ℤ xp) ≡ true
    pub state :
        db'
        ≡ record db { users = (P.update_many user_id (λ _. true) (credited points xp) db.users).0 }

  pub increment_balance-ok :
      (user_id : Key) (points xp : ℤ) (db : Db) (r : User) (db' : Db)
      → increment_balance user_id points xp db ≡ ok (r, db')
      → Incremented user_id points xp db r db'
  unfolding increment_balance
  increment_balance-ok user_id points xp db r db' h =
      elim (Option-cases (P.find_unique user_id db.users)) [
        | inl missing ↦ absurd (ground arith)
        | inr (user, found) ↦ record {
          user = user;
          found = found;
          row = ground arith;
          points_fit = ground arith;
          xp_fits = ground arith;
          state = ground arith;
        }
      ]
