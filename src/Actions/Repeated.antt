-- ===== src/Actions/Repeated.antt =====
-- `redeem` of actions.service.ts, called twice for one participant and activity.
use semcomp2026_gameficacao.Prelude.{◌≡◌, true, none, some, arith, ==-refl}
use semcomp2026_gameficacao.Database.{Prisma}
use semcomp2026_gameficacao.Database.Schema.{Key, Fresh, Action, PointEvent, direct}
use semcomp2026_gameficacao.Database.Failure.{ok, err, conflict, action_already_redeemed}
use semcomp2026_gameficacao.Database.Tx.{Db, ◌>>=◌}
use semcomp2026_gameficacao.Ledger.{conflicts, event_checks, create_point_event}
use semcomp2026_gameficacao.Actions.Granted.{Granted, granted_event}
use semcomp2026_gameficacao.Actions.Redeem.{
  Redemption, redeem, redeem_action, redeem_action_tx, grant_action,
}
use semcomp2026_gameficacao.Actions.Redeemed.{redeem_action_tx-ok}

module _ ⦃P : Prisma⦄ where
  conflicts_again :
      (action : Action) (user_id : Key) (fresh later : Fresh) (db db' : Db) (r : Redemption)
      → Granted (granted_event action user_id direct none fresh) action db r db'
      → P.find_first (conflicts (granted_event action user_id direct none later)) db'.point_events
        ≡ some (granted_event action user_id direct none fresh)
  conflicts_again action user_id fresh later db db' r g =
      let new = granted_event action user_id direct none later in
      ground (
        arith,
        g.posting.events,
        P.find_first-eq_find? (conflicts new) db'.point_events,
        ==-refl user_id,
        ==-refl action.id,
      )

  refused :
      (action_id user_id : Key) (later : Fresh) (db : Db) (action : Action) (old : PointEvent)
      → P.find_unique action_id db.actions ≡ some action
      → action.is_active ≡ true
      → event_checks (granted_event action user_id direct none later) ≡ true
      → P.find_first (conflicts (granted_event action user_id direct none later)) db.point_events
        ≡ some old
      → redeem action_id user_id later db ≡ (err (conflict action_already_redeemed), db)
  unfolding redeem redeem_action redeem_action_tx grant_action create_point_event ◌>>=◌
  refused action_id user_id later db action old found active checked taken = ground arith

  -- A participant who has just redeemed an activity and redeems it again is told so, and nothing
  -- changes.
  pub redeem-redeem :
      (action_id user_id : Key) (fresh later : Fresh) (db : Db) (r : Redemption)
      → (redeem action_id user_id fresh db).0 ≡ ok r
      → redeem action_id user_id later (redeem action_id user_id fresh db).1
        ≡ (err (conflict action_already_redeemed), (redeem action_id user_id fresh db).1)
  unfolding redeem redeem_action
  redeem-redeem action_id user_id fresh later db r h =
      let db' = (redeem action_id user_id fresh db).1 in
      let run : redeem_action_tx action_id user_id direct fresh db ≡ ok (r, db') = ground arith in
      let a = redeem_action_tx-ok action_id user_id direct fresh db r db' run in
      refused action_id user_id later db' a.action
        (granted_event a.action user_id direct none fresh)
        (ground (arith, a.found, a.granted.frame)) a.granted.active
        (ground (arith, a.granted.checked))
        (conflicts_again a.action user_id fresh later db db' r a.granted)
