-- ===== src/Actions/Succeeds.antt =====
-- The conditions of `redeem` of actions.service.ts for an answer that is no error.
use semcomp2026_gameficacao.Prelude.{◌≡◌, true, false, none, some, arith, ℤ, ◌+ℤ◌, pos, ltb_ℤ}
use semcomp2026_gameficacao.Database.{Prisma}
use semcomp2026_gameficacao.Database.Schema.{Key, Fresh, User, Action, PointEvent, direct}
use semcomp2026_gameficacao.Database.Failure.{ok}
use semcomp2026_gameficacao.Database.Tx.{Db, fits_int4, ◌>>=◌}
use semcomp2026_gameficacao.Ledger.{
  conflicts, credited, event_checks, create_point_event, increment_balance,
}
use semcomp2026_gameficacao.Actions.Granted.{granted_event}
use semcomp2026_gameficacao.Actions.Redeem.{
  Redemption, redeem, redeem_action, redeem_action_tx, grant_action,
}
use semcomp2026_gameficacao.Actions.Redeemed.{redeem_action_tx-ok}

abbrev pub awarded : Action → User → Fresh → Redemption
awarded action user fresh = record {
  action = action;
  awarded_points = action.points;
  awarded_xp = action.points;
  current_points = user.points +ℤ action.points;
  current_xp = user.xp +ℤ action.points;
  current_level = user.level;
  redeemed_at = fresh.now;
}

module _ ⦃P : Prisma⦄ where
  created :
      (e : PointEvent) (db : Db)
      → event_checks e ≡ true
      → P.find_first (conflicts e) db.point_events ≡ none
      → create_point_event e db
        ≡ ok (e, record db { point_events = P.create e.id e db.point_events })
  unfolding create_point_event
  created e db checked unique = ground arith

  incremented :
      (user_id : Key) (points xp : ℤ) (db : Db) (user : User)
      → P.find_unique user_id db.users ≡ some user
      → fits_int4 (user.points +ℤ points) ≡ true
      → fits_int4 (user.xp +ℤ xp) ≡ true
      → increment_balance user_id points xp db
        ≡ ok (
          credited points xp user,
          record db { users = (P.update_many user_id (λ _. true) (credited points xp) db.users).0 },
        )
  unfolding increment_balance
  incremented user_id points xp db user found fits_points fits_xp = ground arith

  grantable :
      (action : Action) (user_id : Key) (fresh : Fresh)
      → ltb_ℤ action.points (pos 0) ≡ false
      → fits_int4 action.points ≡ true
      → event_checks (granted_event action user_id direct none fresh) ≡ true
  grantable action user_id fresh nonneg fits = ground arith

  -- A participant who exists redeems an active activity of zero or more points, unless the ledger
  -- already has an event that conflicts with the new one or a number would leave its column. The
  -- answer has the balance before plus the activity's points, as points and as XP.
  pub redeem-succeeds :
      (action_id user_id : Key) (fresh : Fresh) (db : Db) (action : Action) (user : User)
      → P.find_unique action_id db.actions ≡ some action
      → P.find_unique user_id db.users ≡ some user
      → action.is_active ≡ true
      → ltb_ℤ action.points (pos 0) ≡ false
      → fits_int4 action.points ≡ true
      → fits_int4 (user.points +ℤ action.points) ≡ true
      → fits_int4 (user.xp +ℤ action.points) ≡ true
      → P.find_first (conflicts (granted_event action user_id direct none fresh)) db.point_events
        ≡ none
      → (redeem action_id user_id fresh db).0 ≡ ok (awarded action user fresh)
  unfolding redeem redeem_action redeem_action_tx grant_action ◌>>=◌
  redeem-succeeds action_id user_id fresh db action user found at_user active nonneg fits
        fits_points fits_xp unique =
      let e = granted_event action user_id direct none fresh in
      let db1 : Db = record db { point_events = P.create e.id e db.point_events } in
      ground (
        arith,
        created e db (grantable action user_id fresh nonneg fits) unique,
        incremented user_id action.points action.points db1 user at_user fits_points fits_xp,
      )

  -- No direct redemption of an activity with negative points succeeds.
  pub redeem-negative :
      (action_id user_id : Key) (fresh : Fresh) (db : Db) (action : Action) (r : Redemption)
      → P.find_unique action_id db.actions ≡ some action
      → ltb_ℤ action.points (pos 0) ≡ true
      → ¬ (redeem action_id user_id fresh db).0 ≡ ok r
  unfolding redeem redeem_action
  redeem-negative action_id user_id fresh db action r found negative h =
      let db' = (redeem action_id user_id fresh db).1 in
      let run : redeem_action_tx action_id user_id direct fresh db ≡ ok (r, db') = ground arith in
      let a = redeem_action_tx-ok action_id user_id direct fresh db r db' run in
      ground (arith, a.found, a.granted.checked)
