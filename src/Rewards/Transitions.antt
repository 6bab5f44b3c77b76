-- ===== src/Rewards/Transitions.antt =====
-- The states of a redemption: how one is opened, and how it leaves PENDING.
use semcomp2026_gameficacao.Prelude.{
  ℕ, ◌≡◌, true, false, none, some, arith, ◌==◌, if◌then◌else◌, ℤ, Option-cases, inl, inr, ==→eq,
}
use semcomp2026_gameficacao.Database.{Prisma}
use semcomp2026_gameficacao.Database.Schema.{Key, Date, RewardRedemption, RedemptionStatus, pending}
use semcomp2026_gameficacao.Database.Failure.{ok}
use semcomp2026_gameficacao.Database.Tx.{Db}
use semcomp2026_gameficacao.Database.Inversion.{>>=-elim, reject_if-elim, pure-ok}
use semcomp2026_gameficacao.Rewards.Repository.{
  create_redemption, transition_redemption, transitioned, is_pending,
}
use semcomp2026_gameficacao.Rewards.Service.{transition}

module _ ⦃P : Prisma⦄ where
  pub record Opened (id user_id reward_id : Key) (spent : ℤ) (db : Db) (r : RewardRedemption)
      (db' : Db) : Type 0 where
    pub row_id : r.id ≡ id
    pub status : r.status ≡ pending
    pub user : r.user_id ≡ user_id
    pub reward : r.reward_id ≡ reward_id
    pub points_spent : r.points_spent ≡ spent
    pub fresh : P.find_unique id db.redemptions ≡ none
    pub redemptions :
        (j : Key)
        → P.find_unique j db'.redemptions
          ≡ (if id == j then some r else P.find_unique j db.redemptions)
    pub frame : db' ≡ record db { redemptions = db'.redemptions }

  pub create_redemption-ok :
      (id : Key) (now : Date) (user_id reward_id : Key) (spent : ℤ) (db : Db) (r : RewardRedemption)
      (db' : Db)
      → create_redemption id now user_id reward_id spent db ≡ ok (r, db')
      → Opened id user_id reward_id spent db r db'
  unfolding create_redemption
  create_redemption-ok id now user_id reward_id spent db r db' h = record {
    row_id = ground arith;
    status = ground arith;
    user = ground arith;
    reward = ground arith;
    points_spent = ground arith;
    fresh = ground arith;
    redemptions = λ j. ground (arith, P.find_unique-create id j r db.redemptions);
    frame = ground arith;
  }

  pub record Transitioned (id : Key) (status : RedemptionStatus) (admin_id : Key) (at : Date)
      (db db' : Db) : Type 0 where
    pub redemption : RewardRedemption
    pub found : P.find_unique id db.redemptions ≡ some redemption
    pub pending : is_pending redemption.status ≡ true
    pub redemptions :
        (j : Key)
        → P.find_unique j db'.redemptions ≡ (
            if id == j
            then some (transitioned status admin_id at redemption)
            else P.find_unique j db.redemptions)
    pub frame : db' ≡ record db { redemptions = db'.redemptions }

  transition_redemption-ok :
      (id : Key) (status : RedemptionStatus) (admin_id : Key) (at : Date) (db : Db) (count : ℕ)
      (db' : Db)
      → transition_redemption id status admin_id at db ≡ ok (count, db')
      → (count == 0) ≡ false
      → Transitioned id status admin_id at db db'
  unfolding transition_redemption
  transition_redemption-ok id status admin_id at db count db' h some_row =
      let test = λ (r : RewardRedemption). is_pending r.status in
      let update = transitioned status admin_id at in
      let n = P.count-update_many id test update db.redemptions in
      elim (Option-cases (P.find_unique id db.redemptions)) [
        | inl missing ↦ absurd (ground (arith, n))
        | inr (redemption, found) ↦ record {
          redemption = redemption;
          found = found;
          pending = ground (arith, n);
          redemptions = λ j.
              ground
                (arith, n, P.find_unique-update_many id j test update db.redemptions, ==→eq id j);
          frame = ground arith;
        }
      ]

  pub transition-ok :
      (id : Key) (status : RedemptionStatus) (admin_id : Key) (at : Date) (db : Db) (u : Unit {0})
      (db' : Db)
      → transition id status admin_id at db ≡ ok (u, db')
      → Transitioned id status admin_id at db db'
  unfolding transition
  transition-ok id status admin_id at db u db' h = >>=-elim _ _ _ h λ count db1 updated h1.
      reject_if-elim _ _ _ _ h1 λ some_row h2.
        let same = pure-ok _ db1 h2 in
        rw same.1 (transition_redemption-ok id status admin_id at db count db1 updated some_row)
