-- ===== src/Actions/Granted.antt =====
-- What a successful `grantAction` has done: one CREDIT event, one credited participant.

use semcomp2026_gameficacao.Prelude.{◌≡◌, true, Option, none, arith, ◌+ℤ◌, ==→eq}
use semcomp2026_gameficacao.Database.{Prisma}
use semcomp2026_gameficacao.Database.Schema.{Key, Fresh, Action, RedemptionMethod, PointEvent}
use semcomp2026_gameficacao.Database.Failure.{ok}
use semcomp2026_gameficacao.Database.Tx.{Db}
use semcomp2026_gameficacao.Database.Inversion.{>>=-elim, reject_if-elim, pure-ok}
use semcomp2026_gameficacao.Ledger.{conflicts, credited, event_checks}
use semcomp2026_gameficacao.Ledger.Posting.{Posting}
use semcomp2026_gameficacao.Ledger.Statements.{create_point_event-ok, increment_balance-ok}
use semcomp2026_gameficacao.Actions.Repository.{action_event}
use semcomp2026_gameficacao.Actions.Redeem.{Redemption, event_input, grant_action}

module _ ⦃P : Prisma⦄ where
  abbrev pub granted_event : Action → Key → RedemptionMethod → Option Key → Fresh → PointEvent
  granted_event action user_id method claim fresh =
      action_event (event_input action user_id method claim fresh)

  pub record Granted (e : PointEvent) (action : Action) (db : Db) (r : Redemption) (db' : Db)
      : Type 0 where
    pub active : action.is_active ≡ true
    pub checked : event_checks e ≡ true
    pub unique : P.find_first (conflicts e) db.point_events ≡ none
    pub posting : Posting e db db'
    pub frame : db' ≡ record db { users = db'.users; point_events = db'.point_events }
    pub current_points : r.current_points ≡ posting.user.points +ℤ action.points
    pub current_xp : r.current_xp ≡ posting.user.xp +ℤ action.points

  pub grant_action-ok :
      (action : Action) (user_id : Key) (method : RedemptionMethod) (claim : Option Key)
      (fresh : Fresh) (db : Db) (r : Redemption) (db' : Db)
      → grant_action action user_id method claim fresh db ≡ ok (r, db')
      → Granted (granted_event action user_id method claim fresh) action db r db'
  unfolding grant_action
  grant_action-ok action user_id method claim fresh db r db' h =
      reject_if-elim _ _ _ _ h λ active h1. >>=-elim _ _ _ h1 λ event db1 created h2.
        >>=-elim _ _ _ h2 λ user db2 incremented h3.
          let e = granted_event action user_id method claim fresh in
          let c = create_point_event-ok e db event db1 created in
          let i = increment_balance-ok _ _ _ db1 user db2 incremented in
          let d = pure-ok _ db2 h3 in
          let update = credited action.points action.points in
          record {
            active = ground arith;
            checked = c.checked;
            unique = c.unique;
            posting = record {
              user = i.user;
              found = ground (arith, c.state, i.found);
              users = λ j. ground (
                arith,
                c.state,
                i.state,
                i.found,
                d,
                P.find_unique-update_many user_id j (λ _. true) update db.users,
                ==→eq user_id j,
              );
              events =
                  ground (arith, c.state, i.state, d, P.find_many-create e.id e db.point_events);
            };
            frame = ground (arith, c.state, i.state, d);
            current_points = ground (arith, i.row, d);
            current_xp = ground (arith, i.row, d);
          }
