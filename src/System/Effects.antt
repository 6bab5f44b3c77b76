-- ===== src/System/Effects.antt =====
-- The effect of each transaction, by what it has done when it returned.
use semcomp2026_gameficacao.Prelude.{
  ◌≡◌, true, false, ℤ, +ℤ-nonneg, +ℤ-neg_ℤ-nonneg, refl, Bool-cases, inl, inr, Option, arith, pos,
  ◌≤ℤ◌, ◌==◌, ==→eq,
}
use semcomp2026_gameficacao.Database.{Prisma}
use semcomp2026_gameficacao.Database.Schema.{
  Key, Fresh, Date, Action, PointEvent, RewardRedemption, RedemptionMethod, RedemptionStatus,
  pending, delivered, cancelled,
}
use semcomp2026_gameficacao.Database.Tx.{Db}
use semcomp2026_gameficacao.Audit.Contract.{OperationContext}
use semcomp2026_gameficacao.Actions.Redeem.{Redemption}
use semcomp2026_gameficacao.Actions.QuestionGranted.{QuestionGranted, question_event}
use semcomp2026_gameficacao.Actions.Granted.{Granted, granted_event}
use semcomp2026_gameficacao.Rewards.Repository.{is_pending, transitioned}
use semcomp2026_gameficacao.Rewards.Transitions.{Opened, Transitioned}
use semcomp2026_gameficacao.Rewards.Purchase.{Purchased, purchase_event}
use semcomp2026_gameficacao.Rewards.Reversal.{Cancelled, refund_event}
use semcomp2026_gameficacao.Adjustments.Replay.{Adjustment}
use semcomp2026_gameficacao.Adjustments.Posted.{Posted}
use semcomp2026_gameficacao.Audit.Contract.{AuditEvent}
use semcomp2026_gameficacao.System.Effect.{
  Effect, posts, Moves, Moved, stays, is_delivered, is_cancelled, Served, Moves-same, UsedStay-same,
}

module _ ⦃P : Prisma⦄ where
  pub Opened-Moves :
      (id user_id reward_id : Key) (spent : ℤ) (db : Db) (r : RewardRedemption) (db' : Db)
      → Opened id user_id reward_id spent db r db'
      → Moves db db'
  Opened-Moves id user_id reward_id spent db r db' o j old found = (
    old,
    ground (arith, o.redemptions j, o.fresh, found, ==→eq id j),
    record { status = stays; user = refl; reward = refl; points_spent = refl },
  )

  transitioned-Moved :
      (status : RedemptionStatus) (admin_id : Key) (at : Date) (r : RewardRedemption)
      → is_pending r.status ≡ true
      → is_pending status ≡ false
      → Moved r (transitioned status admin_id at r)
  transitioned-Moved pending admin_id at r h k = absurd (cc)
  transitioned-Moved delivered admin_id at r h k =
      let is_open : r.status ≡ pending = ground arith in
      record { status = rw is_open is_delivered; user = refl; reward = refl; points_spent = refl }
  transitioned-Moved cancelled admin_id at r h k =
      let is_open : r.status ≡ pending = ground arith in
      record { status = rw is_open is_cancelled; user = refl; reward = refl; points_spent = refl }

  pub Transitioned-Moves :
      (id : Key) (status : RedemptionStatus) (admin_id : Key) (at : Date) (db db' : Db)
      → is_pending status ≡ false
      → Transitioned id status admin_id at db db'
      → Moves db db'
  Transitioned-Moves id status admin_id at db db' final t j r found = elim (Bool-cases (id == j)) [
    | inl same ↦
        let one : t.redemption ≡ r = ground (arith, t.found, found, ==→eq id j) in
        (
          transitioned status admin_id at r,
          ground (arith, t.redemptions j, same, one),
          transitioned-Moved status admin_id at r (ground (arith, one, t.pending)) final,
        )
    | inr other ↦ (
      r,
      ground (arith, t.redemptions j, other, found),
      record { status = stays; user = refl; reward = refl; points_spent = refl },
    )
  ]

  pub Granted-Effect :
      (user_id : Key) (method : RedemptionMethod) (claim : Option Key) (fresh : Fresh)
      (action : Action) (db : Db) (r : Redemption) (db' : Db)
      → Granted (granted_event action user_id method claim fresh) action db r db'
      → Effect db db'
  Granted-Effect user_id method claim fresh action db r db' g =
      posts (granted_event action user_id method claim fresh) g.posting g.unique λ s.
        let p = s.points user_id g.posting.user g.posting.found in
        let x = s.xp user_id g.posting.user g.posting.found in
        let gain : pos 0 ≤ℤ action.points = ground (arith, g.checked) in
        (+ℤ-nonneg _ _ p gain, +ℤ-nonneg _ _ x gain)

  pub QuestionGranted-Effect :
      (participant_id : Key) (context : OperationContext) (fresh : Fresh) (db db' : Db)
      → QuestionGranted participant_id context fresh db db'
      → Effect db db'
  QuestionGranted-Effect participant_id context fresh db db' g =
      posts (question_event g.action participant_id context fresh) g.posting g.unique λ s.
        let p = s.points participant_id g.posting.user g.posting.found in
        let x = s.xp participant_id g.posting.user g.posting.found in
        let gain : pos 0 ≤ℤ g.action.points = ground (arith, g.checked) in
        (+ℤ-nonneg _ _ p gain, +ℤ-nonneg _ _ x gain)

  pub Purchased-Effect :
      (reward_id user_id : Key) (fresh : Fresh) (db : Db) (r : RewardRedemption) (db' : Db)
      → Purchased reward_id user_id fresh db r db'
      → Effect db db'
  Purchased-Effect reward_id user_id fresh db r db' g =
      posts (purchase_event g.reward user_id fresh) g.posting g.unique λ s.
        let x = s.xp user_id g.posting.user g.posting.found in
        (+ℤ-neg_ℤ-nonneg _ _ g.covered, +ℤ-nonneg _ (pos 0) x (ground arith))

  pub Cancelled-Effect :
      (id : Key) (context : OperationContext) (fresh : Fresh) (db : Db) (r : RewardRedemption)
      (db' : Db)
      → Cancelled id context fresh db r db'
      → Effect db db'
  Cancelled-Effect id context fresh db r db' g =
      posts (refund_event g.state id fresh) g.posting g.unique λ s.
        let p = s.points g.state.redemption.user_id g.posting.user g.posting.found in
        let x = s.xp g.state.redemption.user_id g.posting.user g.posting.found in
        let gain : pos 0 ≤ℤ g.state.redemption.points_spent = ground (arith, g.checked) in
        (+ℤ-nonneg _ _ p gain, +ℤ-nonneg _ (pos 0) x (ground arith))

  pub Posted-Served :
      (e : PointEvent) (a : AuditEvent) (db : Db) (r : Adjustment) (db' : Db)
      → Posted e a db r db'
      → Served db db'
  Posted-Served e a db r db' p = record {
    effect = posts e p.posting p.unique (λ s. (p.points, p.xp));
    moves = Moves-same db db' (ground (arith, p.frame));
    codes = UsedStay-same db db' (ground (arith, p.frame));
  }
