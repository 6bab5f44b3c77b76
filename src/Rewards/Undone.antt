-- ===== src/Rewards/Undone.antt =====
-- `redeem` of rewards.service.ts followed by `cancelRedemption`.
use semcomp2026_gameficacao.Prelude.{
  ◌≡◌, some, arith, ℤ, pos, ◌+ℤ◌, neg_ℤ, +ℤ-neg_ℤ-cancel, sub_add_cancel, ==→eq, ==-refl,
}
use semcomp2026_gameficacao.Text.{Text}
use semcomp2026_gameficacao.Database.{Prisma}
use semcomp2026_gameficacao.Database.Schema.{Key, Fresh, User, Reward, RewardRedemption}
use semcomp2026_gameficacao.Database.Failure.{ok}
use semcomp2026_gameficacao.Database.Tx.{Db}
use semcomp2026_gameficacao.Audit.Contract.{OperationContext}
use semcomp2026_gameficacao.Ledger.{credited}
use semcomp2026_gameficacao.Rewards.Repository.{fewer, more}
use semcomp2026_gameficacao.Rewards.Service.{
  redeem_tx, redeem, cancel_redemption_tx, cancel_redemption,
}
use semcomp2026_gameficacao.Rewards.Statements.{add_zero}
use semcomp2026_gameficacao.Rewards.Purchase.{Purchased, redeem_tx-ok}
use semcomp2026_gameficacao.Rewards.Reversal.{Cancelled, cancel_redemption_tx-ok}

credited-credited : (c : ℤ) (u : User) → credited c (pos 0) (credited (neg_ℤ c) (pos 0) u) ≡ u
credited-credited c u =
    ground (arith, +ℤ-neg_ℤ-cancel u.points c, add_zero u.xp, add_zero (u.xp +ℤ pos 0))

more-fewer : (r : Reward) → more (fewer r) ≡ r
more-fewer r = ground (arith, sub_add_cancel r.stock (pos 1))

module _ ⦃P : Prisma⦄ where
  abbrev pub Undone : Db → Db → Type 0
  Undone db db' =
      ((j : Key) → P.find_unique j db'.users ≡ P.find_unique j db.users)
      × ((j : Key) → P.find_unique j db'.rewards ≡ P.find_unique j db.rewards)

  Cancelled-Undone :
      (reward_id user_id : Key) (fresh : Fresh) (db : Db) (r : RewardRedemption) (db1 : Db)
      (context : OperationContext) (later : Fresh) (s : RewardRedemption) (db2 : Db)
      → Purchased reward_id user_id fresh db r db1
      → Cancelled r.id context later db1 s db2
      → Undone db db2
  Cancelled-Undone reward_id user_id fresh db r db1 context later s db2 p c =
      let opened : P.find_unique r.id db1.redemptions ≡ some r =
        ground (arith, p.opened.redemptions r.id, p.opened.row_id, ==-refl r.id) in
      let same : c.state.redemption ≡ r = ground (arith, c.found, opened) in
      let cost = p.reward.cost_in_points in
      (
        λ j. ground (
          arith,
          same,
          p.opened.user,
          p.opened.points_spent,
          c.posting.users j,
          c.posting.found,
          p.posting.users j,
          p.posting.users user_id,
          p.posting.found,
          credited-credited cost p.posting.user,
          ==→eq user_id j,
          ==-refl user_id,
        ),
        λ j. ground (
          arith,
          same,
          p.opened.reward,
          c.rewards j,
          c.reward_found,
          p.rewards j,
          p.rewards p.reward.id,
          p.stocked_found,
          more-fewer p.stocked,
          ==→eq p.reward.id j,
          ==-refl p.reward.id,
        ),
      )

  -- If a participant's redemption of a reward returned, and the cancellation of that redemption
  -- right after it returned, then every participant's row and every reward's row are as they were
  -- before: the points and the unit of stock are back.
  pub redeem-cancel_redemption :
      (reward_id user_id : Key) (fresh : Fresh) (db : Db) (r : RewardRedemption) (reason : Text)
      (context : OperationContext) (later : Fresh) (s : RewardRedemption)
      → (redeem reward_id user_id fresh db).0 ≡ ok r
      → (cancel_redemption r.id reason context later (redeem reward_id user_id fresh db).1).0 ≡ ok s
      → Undone db
          (cancel_redemption r.id reason context later (redeem reward_id user_id fresh db).1).1
  unfolding redeem cancel_redemption
  redeem-cancel_redemption reward_id user_id fresh db r reason context later s first second =
      let db1 = (redeem reward_id user_id fresh db).1 in
      let db2 = (cancel_redemption r.id reason context later db1).1 in
      let run1 : redeem_tx reward_id user_id fresh db ≡ ok (r, db1) = ground arith in
      let run2 : cancel_redemption_tx r.id reason context later db1 ≡ ok (s, db2) = ground arith in
      Cancelled-Undone reward_id user_id fresh db r db1 context later s db2
        (redeem_tx-ok reward_id user_id fresh db r db1 run1)
        (cancel_redemption_tx-ok r.id reason context later db1 s db2 run2)
