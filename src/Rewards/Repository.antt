-- ===== src/Rewards/Repository.antt =====
-- rewards.repository.ts: the statements of RewardsRepository.
use semcomp2026_gameficacao.Prelude.{
  ℕ, Bool, true, false, not, ◌&&◌, ◌||◌, Option, none, some, if◌then◌else◌, ℤ, pos, ◌+ℤ◌, ◌-ℤ◌,
  leb_ℤ, ltb_ℤ,
}
use semcomp2026_gameficacao.Database.{Prisma}
use semcomp2026_gameficacao.Database.Schema.{
  Key, Date, Text, User, Reward, RewardRedemption, RedemptionStatus, pending, delivered, PointEvent,
  PointEventKind, reward_redemption,
}
use semcomp2026_gameficacao.Database.Failure.{Result, ok, err, unique_constraint, fault}
use semcomp2026_gameficacao.Database.Tx.{Db, Tx, fits_int4}
use semcomp2026_gameficacao.Ledger.{create_point_event, increment_balance}

abbrev pub is_pending : RedemptionStatus → Bool
is_pending pending = true
is_pending _ = false

abbrev pub debited : ℤ → User → User
debited points u = record u { points = u.points -ℤ points }

abbrev pub fewer : Reward → Reward
fewer r = record r { stock = r.stock -ℤ pos 1 }

abbrev pub more : Reward → Reward
more r = record r { stock = r.stock +ℤ pos 1 }

-- `LockedCancellationState`
pub record CancellationState : Type 0 where
  pub redemption : RewardRedemption
  pub user : User
  pub reward : Reward

-- The input of `createRewardPointEvent`, with the id and the date that the database fills in.
pub record RewardEventInput : Type 0 where
  pub id : Key
  pub user_id : Key
  pub points : ℤ
  pub kind : PointEventKind
  pub description : Text
  pub reward_redemption_id : Key
  pub created_at : Date

abbrev pub reward_event : RewardEventInput → PointEvent
reward_event i = record {
  id = i.id;
  user_id = i.user_id;
  action_id = none;
  points = i.points;
  xp_delta = pos 0;
  kind = i.kind;
  source = reward_redemption;
  redemption_method = none;
  claim_code_id = none;
  audit_event_id = none;
  reward_redemption_id = some i.reward_redemption_id;
  actor_admin_id = none;
  idempotency_key = none;
  reversed_event_id = none;
  description = some i.description;
  created_at = i.created_at;
}

-- The `data` of `transitionRedemption`.
abbrev pub transitioned : RedemptionStatus → Key → Date → RewardRedemption → RewardRedemption
transitioned delivered admin_id at r = record r {
  status = delivered;
  delivered_at = some at;
  delivered_by_admin_id = some admin_id;
}
transitioned status admin_id at r = record r {
  status = status;
  cancelled_at = some at;
  cancelled_by_admin_id = some admin_id;
}

-- This repository translates no P2002.
abbrev pub untranslated {ℓ} : {A : Type ℓ} → Result A → Result A
untranslated (err unique_constraint) = err fault
untranslated r = r

module _ ⦃P : Prisma⦄ where
  abbrev pub find_reward_by_id : Key → Db → Option Reward
  find_reward_by_id id db = P.find_unique id db.rewards

  -- Whether the decrement of a row that is changed stays in the column's range.
  abbrev pub debit_fits : ℤ → Option User → Bool
  debit_fits points none = true
  debit_fits points (some u) = not (leb_ℤ points u.points) || fits_int4 (u.points -ℤ points)

  -- `updateMany({ where: { id, points: { gte } }, data: { points: { decrement } } })`
  unfoldable pub debit_user_points : Key → ℤ → Tx ℕ
  debit_user_points user_id points db =
      let (t, count) =
        P.update_many user_id (λ u. leb_ℤ points u.points) (debited points) db.users in
      if debit_fits points (P.find_unique user_id db.users)
      then ok (count, record db { users = t })
      else err fault

  abbrev pub credit_user_points : Key → ℤ → Tx User
  credit_user_points user_id points = increment_balance user_id points (pos 0)

  -- `updateMany({ where: { id, isActive: true, stock: { gt: 0 } }, data: { stock: { decrement } } })`
  unfoldable pub decrement_reward_stock : Key → Tx ℕ
  decrement_reward_stock reward_id db =
      let (t, count) =
        P.update_many reward_id (λ r. r.is_active && ltb_ℤ (pos 0) r.stock) fewer db.rewards in
      ok (count, record db { rewards = t })

  abbrev store_stock : Key → Option Reward → Tx Reward
  store_stock reward_id none db = err fault
  store_stock reward_id (some r) db =
      if fits_int4 (r.stock +ℤ pos 1)
      then ok
          (more r, record db { rewards = (P.update_many reward_id (λ _. true) more db.rewards).0 })
      else err fault

  -- `update({ where: { id }, data: { stock: { increment: 1 } } })`
  unfoldable pub increment_reward_stock : Key → Tx Reward
  increment_reward_stock reward_id db =
      store_stock reward_id (P.find_unique reward_id db.rewards) db

  abbrev store_redemption : RewardRedemption → Option RewardRedemption → Tx RewardRedemption
  store_redemption r none db = ok (r, record db { redemptions = P.create r.id r db.redemptions })
  store_redemption r (some old) db = err fault

  unfoldable pub create_redemption : (id : Key) (now : Date) → Key → Key → ℤ → Tx RewardRedemption
  create_redemption id now user_id reward_id points_spent db =
      store_redemption
        (record {
          id = id;
          user_id = user_id;
          reward_id = reward_id;
          points_spent = points_spent;
          status = pending;
          delivered_at = none;
          delivered_by_admin_id = none;
          cancelled_at = none;
          cancelled_by_admin_id = none;
          created_at = now;
        })
        (P.find_unique id db.redemptions) db

  unfoldable pub create_reward_point_event : RewardEventInput → Tx PointEvent
  create_reward_point_event input db = untranslated (create_point_event (reward_event input) db)

  abbrev pub find_redemption_by_id : Key → Db → Option RewardRedemption
  find_redemption_by_id id db = P.find_unique id db.redemptions

  -- `SELECT … FOR UPDATE` reads the same row.
  abbrev pub lock_redemption_state : Key → Db → Option RewardRedemption
  lock_redemption_state id db = P.find_unique id db.redemptions

  abbrev join_cancellation :
      RewardRedemption → Option User → Option Reward → Option CancellationState
  join_cancellation r (some user) (some reward) =
      some (record { redemption = r; user = user; reward = reward })
  join_cancellation r _ _ = none

  abbrev lock_shared_rows : Option RewardRedemption → Db → Option CancellationState
  lock_shared_rows none db = none
  lock_shared_rows (some r) db =
      join_cancellation r (P.find_unique r.user_id db.users) (P.find_unique r.reward_id db.rewards)

  abbrev pub lock_cancellation_state : Key → Db → Option CancellationState
  lock_cancellation_state id db = lock_shared_rows (lock_redemption_state id db) db

  -- `updateMany({ where: { id, status: PENDING }, data })`
  unfoldable pub transition_redemption : Key → RedemptionStatus → Key → Date → Tx ℕ
  transition_redemption id status admin_id at db =
      let (t, count) =
        P.update_many id (λ r. is_pending r.status) (transitioned status admin_id at)
          db.redemptions in
      ok (count, record db { redemptions = t })
