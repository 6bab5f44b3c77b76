-- ===== src/System/Effect.antt =====
-- What one request may do to the balances, the ledger and the redemptions.
use semcomp2026_gameficacao.Prelude.{
  ◌≡◌, ◌⊎◌, inl, inr, refl, true, none, some, arith, pos, ◌+ℤ◌, ◌≤ℤ◌, List,
}
use semcomp2026_gameficacao.Database.{Prisma}
use semcomp2026_gameficacao.Database.Schema.{
  Key, ClaimCode, PointEvent, RewardRedemption, RedemptionStatus, pending, delivered, cancelled,
}
use semcomp2026_gameficacao.Database.Failure.{Failure, Result, ok, err}
use semcomp2026_gameficacao.Database.Tx.{Db, Tx, with_transaction, rethrow}
use semcomp2026_gameficacao.Ledger.{conflicts}
use semcomp2026_gameficacao.Ledger.Sums.{IsReconciled, IsSolvent}
use semcomp2026_gameficacao.Ledger.Appended.{Appended}
use semcomp2026_gameficacao.Ledger.Posting.{Posting}
use semcomp2026_gameficacao.Adjustments.Replay.{Adjustment}
use semcomp2026_gameficacao.Adjustments.Service.{recover}
use semcomp2026_gameficacao.Reconciliation.Replay.{Confirmation}
use semcomp2026_gameficacao.Reconciliation.Service.{recover_confirm}

-- The status machine of a redemption: DELIVERED and CANCELLED are final.
pub data Reaches : RedemptionStatus → RedemptionStatus → Type 0 where
  stays : {s : RedemptionStatus} → Reaches s s
  is_delivered : Reaches pending delivered
  is_cancelled : Reaches pending cancelled

pub record Moved (r r' : RewardRedemption) : Type 0 where
  pub status : Reaches r.status r'.status
  pub user : r'.user_id ≡ r.user_id
  pub reward : r'.reward_id ≡ r.reward_id
  pub points_spent : r'.points_spent ≡ r.points_spent

Result-cases : {A : Type 0} (x : Result A) → ((e : Failure) × (x ≡ err e)) ⊎ ((a : A) × (x ≡ ok a))
Result-cases (err e) = inl (e, refl)
Result-cases (ok a) = inr (a, refl)

module _ ⦃P : Prisma⦄ where
  pub data Effect (db db' : Db) : Type 0 where
    quiet : db'.users ≡ db.users → db'.point_events ≡ db.point_events → Effect db db'
    posts :
        (e : PointEvent) (p : Posting e db db')
        → P.find_first (conflicts e) db.point_events ≡ none
        → (IsSolvent db → (pos 0 ≤ℤ p.user.points +ℤ e.points) × (pos 0 ≤ℤ p.user.xp +ℤ e.xp_delta))
        → Effect db db'
    -- Only where a stored balance differs from the ledger.
    compensates :
        {news : List PointEvent}
        → db'.users ≡ db.users
        → Appended news (P.find_many db.point_events) (P.find_many db'.point_events)
        → (IsReconciled db → IsReconciled db')
        → Effect db db'

  -- No redemption disappears, and each one only moves along its machine.
  abbrev pub Moves : Db → Db → Type 0
  Moves db db' =
      (j : Key) (r : RewardRedemption)
      → P.find_unique j db.redemptions ≡ some r
      → (r' : RewardRedemption) × (P.find_unique j db'.redemptions ≡ some r') × Moved r r'

  -- No used claim code changes or disappears.
  abbrev pub UsedStay : Db → Db → Type 0
  UsedStay db db' =
      (j : Key) (c : ClaimCode)
      → P.find_unique j db.claim_codes ≡ some c
      → c.is_used ≡ true
      → P.find_unique j db'.claim_codes ≡ some c

  pub UsedStay-same : (db db' : Db) → db'.claim_codes ≡ db.claim_codes → UsedStay db db'
  UsedStay-same db db' same j c found is_used = rw same found

  pub record Served (db db' : Db) : Type 0 where
    pub effect : Effect db db'
    pub moves : Moves db db'
    pub codes : UsedStay db db'

  pub Moves-same : (db db' : Db) → db'.redemptions ≡ db.redemptions → Moves db db'
  Moves-same db db' same j r found =
      (r, rw same found, record { status = stays; user = refl; reward = refl; points_spent = refl })

  pub Served-refl : (db : Db) → Served db db
  Served-refl db = record {
    effect = quiet refl refl;
    moves = Moves-same db db refl;
    codes = UsedStay-same db db refl;
  }

  pub with_transaction-Served :
      {A : Type 0} (m : Tx A) (db : Db)
      → ((r : A) (db' : Db) → m db ≡ ok (r, db') → Served db db')
      → Served db (with_transaction m db).1
  with_transaction-Served m db k = elim (Result-cases (m db)) [
    | inl (e, failed) ↦
        let same : (with_transaction m db).1 ≡ db = ground (arith, failed) in
        rw same (Served-refl db)
    | inr ((a, db'), returned) ↦
        let same : (with_transaction m db).1 ≡ db' = ground (arith, returned) in
        rw same (k a db' returned)
  ]

  pub rethrow-1 : {A : Type 0} (f : Failure → Failure) (x : Result A × Db) → (rethrow f x).1 ≡ x.1
  rethrow-1 f (ok a, db) = refl
  rethrow-1 f (err e, db) = refl

  pub recover_confirm-1 :
      (answer : Db → Result Confirmation) (x : Result Confirmation × Db)
      → (recover_confirm answer x).1 ≡ x.1
  recover_confirm-1 answer (ok a, db) = refl
  recover_confirm-1 answer (err e, db) = ground arith

  pub recover-1 :
      (answer : Db → Result Adjustment) (x : Result Adjustment × Db) → (recover answer x).1 ≡ x.1
  recover-1 answer (ok a, db) = refl
  recover-1 answer (err e, db) = ground arith
