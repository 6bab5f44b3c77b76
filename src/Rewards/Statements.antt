-- ===== src/Rewards/Statements.antt =====
-- What the statements of RewardsRepository have done when they returned.

use semcomp2026_gameficacao.Prelude.{
  ℕ, ◌≡◌, true, false, ◌&&◌, some, arith, ◌==◌, if◌then◌else◌, ℤ, pos, ◌+ℤ◌, ◌-ℤ◌, neg_ℤ, leb_ℤ,
  ltb_ℤ, int_laws, Option-cases, inl, inr, ==→eq,
}
use semcomp2026_gameficacao.Database.{Prisma}
use semcomp2026_gameficacao.Database.Schema.{Key, User, Reward, PointEvent}
use semcomp2026_gameficacao.Database.Failure.{Result, ok, err}
use semcomp2026_gameficacao.Database.Tx.{Db}
use semcomp2026_gameficacao.Ledger.{credited, create_point_event}
use semcomp2026_gameficacao.Ledger.Statements.{Created, create_point_event-ok}
use semcomp2026_gameficacao.Rewards.Repository.{
  debited, fewer, more, debit_user_points, decrement_reward_stock, increment_reward_stock,
  create_reward_point_event, reward_event, RewardEventInput, untranslated,
}

sub-eq-add_neg : (a b : ℤ) → a -ℤ b ≡ a +ℤ neg_ℤ b
sub-eq-add_neg a b = omega int_laws

pub add_zero : (a : ℤ) → a +ℤ pos 0 ≡ a
add_zero a = omega int_laws

pub debited-eq-credited : (c : ℤ) (u : User) → debited c u ≡ credited (neg_ℤ c) (pos 0) u
debited-eq-credited c u = ground (arith, sub-eq-add_neg u.points c, add_zero u.xp)

module _ ⦃P : Prisma⦄ where
  pub record Debited (user_id : Key) (cost : ℤ) (db db' : Db) : Type 0 where
    pub user : User
    pub found : P.find_unique user_id db.users ≡ some user
    pub enough : leb_ℤ cost user.points ≡ true
    pub users :
        (j : Key)
        → P.find_unique j db'.users
          ≡ (if user_id == j then some (debited cost user) else P.find_unique j db.users)
    pub frame : db' ≡ record db { users = db'.users }

  pub debit_user_points-ok :
      (user_id : Key) (cost : ℤ) (db : Db) (count : ℕ) (db' : Db)
      → debit_user_points user_id cost db ≡ ok (count, db')
      → (count == 0) ≡ false
      → Debited user_id cost db db'
  unfolding debit_user_points
  debit_user_points-ok user_id cost db count db' h some_row =
      let n = P.count-update_many user_id (λ u. leb_ℤ cost u.points) (debited cost) db.users in
      elim (Option-cases (P.find_unique user_id db.users)) [
        | inl missing ↦ absurd (ground (arith, n))
        | inr (user, found) ↦ record {
          user = user;
          found = found;
          enough = ground (arith, n);
          users = λ j. ground (
            arith,
            n,
            P.find_unique-update_many user_id j (λ u. leb_ℤ cost u.points) (debited cost) db.users,
            ==→eq user_id j,
          );
          frame = ground arith;
        }
      ]

  pub record Decremented (reward_id : Key) (db db' : Db) : Type 0 where
    pub reward : Reward
    pub found : P.find_unique reward_id db.rewards ≡ some reward
    pub active : reward.is_active ≡ true
    pub in_stock : ltb_ℤ (pos 0) reward.stock ≡ true
    pub rewards :
        (j : Key)
        → P.find_unique j db'.rewards
          ≡ (if reward_id == j then some (fewer reward) else P.find_unique j db.rewards)
    pub frame : db' ≡ record db { rewards = db'.rewards }

  pub decrement_reward_stock-ok :
      (reward_id : Key) (db : Db) (count : ℕ) (db' : Db)
      → decrement_reward_stock reward_id db ≡ ok (count, db')
      → (count == 0) ≡ false
      → Decremented reward_id db db'
  unfolding decrement_reward_stock
  decrement_reward_stock-ok reward_id db count db' h some_row =
      let available = λ (r : Reward). r.is_active && ltb_ℤ (pos 0) r.stock in
      let n = P.count-update_many reward_id available fewer db.rewards in
      elim (Option-cases (P.find_unique reward_id db.rewards)) [
        | inl missing ↦ absurd (ground (arith, n))
        | inr (reward, found) ↦ record {
          reward = reward;
          found = found;
          active = ground (arith, n);
          in_stock = ground (arith, n);
          rewards = λ j. ground (
            arith,
            n,
            P.find_unique-update_many reward_id j available fewer db.rewards,
            ==→eq reward_id j,
          );
          frame = ground arith;
        }
      ]

  pub record Restocked (reward_id : Key) (db : Db) (row : Reward) (db' : Db) : Type 0 where
    pub reward : Reward
    pub found : P.find_unique reward_id db.rewards ≡ some reward
    pub returned : row ≡ more reward
    pub rewards :
        (j : Key)
        → P.find_unique j db'.rewards
          ≡ (if reward_id == j then some (more reward) else P.find_unique j db.rewards)
    pub frame : db' ≡ record db { rewards = db'.rewards }

  pub increment_reward_stock-ok :
      (reward_id : Key) (db : Db) (row : Reward) (db' : Db)
      → increment_reward_stock reward_id db ≡ ok (row, db')
      → Restocked reward_id db row db'
  unfolding increment_reward_stock
  increment_reward_stock-ok reward_id db row db' h =
      elim (Option-cases (P.find_unique reward_id db.rewards)) [
        | inl missing ↦ absurd (ground arith)
        | inr (reward, found) ↦ record {
          reward = reward;
          found = found;
          returned = ground arith;
          rewards = λ j. ground (
            arith,
            P.find_unique-update_many reward_id j (λ _. true) more db.rewards,
            ==→eq reward_id j,
          );
          frame = ground arith;
        }
      ]

  untranslated-ok :
      (x : Result (PointEvent × Db)) {y : PointEvent × Db} → untranslated x ≡ ok y → x ≡ ok y
  untranslated-ok (ok y) h = h
  untranslated-ok (err e) h = ground arith

  pub create_reward_point_event-ok :
      (input : RewardEventInput) (db : Db) (r : PointEvent) (db' : Db)
      → create_reward_point_event input db ≡ ok (r, db')
      → Created (reward_event input) db r db'
  unfolding create_reward_point_event
  create_reward_point_event-ok input db r db' h =
      create_point_event-ok (reward_event input) db r db'
        (untranslated-ok (create_point_event (reward_event input) db) h)
