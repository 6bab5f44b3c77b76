-- ===== src/Actions/Redeemed.antt =====
-- What `redeemAction` and `redeemClaimCode` have done when their transactions returned.
use semcomp2026_gameficacao.Prelude.{
  ℕ, ◌≡◌, true, false, not, ◌&&◌, Option, none, some, arith, ◌==◌, if◌then◌else◌, Bool-cases,
  Option-cases, inl, inr, ==→eq,
}
use semcomp2026_gameficacao.Text.{Text}
use semcomp2026_gameficacao.Database.{Prisma}
use semcomp2026_gameficacao.Database.Schema.{
  Key, Date, Fresh, Action, ClaimCode, RedemptionMethod, claim_code,
}
use semcomp2026_gameficacao.Database.Failure.{ok}
use semcomp2026_gameficacao.Database.Tx.{Db, ◌>>=◌, pure}
use semcomp2026_gameficacao.Database.Inversion.{>>=-elim, reads-elim, or_throw-elim, reject_if-elim}
use semcomp2026_gameficacao.Actions.Repository.{
  consume_claim_code, find_claim_code_for_redemption, find_action_by_id, find_claim_code_state,
  used,
}
use semcomp2026_gameficacao.Actions.Redeem.{
  Redemption, is_reusable_code, used_or_inactive, explain_unconsumed, redeem_action_tx,
  redeem_claim_code_tx,
}
use semcomp2026_gameficacao.Actions.Granted.{Granted, granted_event, grant_action-ok}

module _ ⦃P : Prisma⦄ where
  pub record ActionRedeemed (action_id user_id : Key) (method : RedemptionMethod) (fresh : Fresh)
      (db : Db) (r : Redemption) (db' : Db) : Type 0 where
    pub action : Action
    pub found : find_action_by_id action_id db ≡ some action
    pub code_active : (is_reusable_code method && not action.is_code_active) ≡ false
    pub granted : Granted (granted_event action user_id method none fresh) action db r db'

  pub redeem_action_tx-ok :
      (action_id user_id : Key) (method : RedemptionMethod) (fresh : Fresh) (db : Db)
      (r : Redemption) (db' : Db)
      → redeem_action_tx action_id user_id method fresh db ≡ ok (r, db')
      → ActionRedeemed action_id user_id method fresh db r db'
  unfolding redeem_action_tx
  redeem_action_tx-ok action_id user_id method fresh db r db' h = reads-elim _ _ _ h λ h0.
      or_throw-elim _ _ _ _ h0 λ action found h1. reject_if-elim _ _ _ _ h1 λ code_active h2.
        record {
          action = action;
          found = found;
          code_active = code_active;
          granted = grant_action-ok action user_id method none fresh db r db' h2;
        }

  -- One unused, active code is marked as used.
  pub record Consumed (id user_id : Key) (at : Date) (db db' : Db) : Type 0 where
    pub code : ClaimCode
    pub found : P.find_unique id db.claim_codes ≡ some code
    pub unused : code.is_used ≡ false
    pub active : code.is_active ≡ true
    pub codes :
        (j : Key)
        → P.find_unique j db'.claim_codes
          ≡ (if id == j then some (used user_id at code) else P.find_unique j db.claim_codes)
    pub frame : db' ≡ record db { claim_codes = db'.claim_codes }

  consume_claim_code-ok :
      (id user_id : Key) (at : Date) (db db' : Db)
      → consume_claim_code id user_id at db ≡ ok (1, db')
      → Consumed id user_id at db db'
  unfolding consume_claim_code
  consume_claim_code-ok id user_id at db db' h =
      let test = λ (c : ClaimCode). not c.is_used && c.is_active in
      let n = P.count-update_many id test (used user_id at) db.claim_codes in
      elim (Option-cases (P.find_unique id db.claim_codes)) [
        | inl missing ↦ absurd (ground (arith, n))
        | inr (code, found) ↦ record {
          code = code;
          found = found;
          unused = ground (arith, n);
          active = ground (arith, n);
          codes = λ j. ground (
            arith,
            n,
            P.find_unique-update_many id j test (used user_id at) db.claim_codes,
            ==→eq id j,
          );
          frame = ground arith;
        }
      ]

  used_or_inactive-ok :
      (c : Option ClaimCode) (db : Db) {r : Unit {0} × Db} → ¬ used_or_inactive c db ≡ ok r
  unfolding ◌>>=◌
  used_or_inactive-ok none db h = ground arith
  used_or_inactive-ok (some c) db h = ground arith

  Consumed-ok :
      (count : ℕ) (id user_id : Key) (at : Date) (db db1 db2 : Db) (u : Unit {0})
      → consume_claim_code id user_id at db ≡ ok (count, db1)
      → (if count == 1 then pure tt else explain_unconsumed id) db1 ≡ ok (u, db2)
      → Consumed id user_id at db db2
  unfolding ◌>>=◌ explain_unconsumed
  Consumed-ok count id user_id at db db1 db2 u run h =
      let never = used_or_inactive-ok (find_claim_code_state id db1) db1 {r = (u, db2)} in
      let consumed = consume_claim_code-ok id user_id at db in
      elim (Bool-cases (count == 1)) [
        | inl one ↦
            let same : db2 ≡ db1 = ground (arith, one) in
            rw same (consumed db1 (ground (arith, ==→eq count 1, one)))
        | inr other ↦ absurd (never (ground (arith, other)))
      ]

  pub record ClaimRedeemed (code : Text) (user_id : Key) (fresh : Fresh) (db : Db) (r : Redemption)
      (db' : Db) : Type 0 where
    pub claim : ClaimCode
    pub action : Action
    pub found : find_claim_code_for_redemption code db ≡ some (claim, action)
    pub middle : Db
    pub consumed : Consumed claim.id user_id fresh.now db middle
    pub granted :
        Granted (granted_event action user_id claim_code (some claim.id) fresh) action middle r db'

  pub redeem_claim_code_tx-ok :
      (code : Text) (user_id : Key) (fresh : Fresh) (db : Db) (r : Redemption) (db' : Db)
      → redeem_claim_code_tx code user_id fresh db ≡ ok (r, db')
      → ClaimRedeemed code user_id fresh db r db'
  unfolding redeem_claim_code_tx
  redeem_claim_code_tx-ok code user_id fresh db r db' h = reads-elim _ _ _ h λ h0.
      or_throw-elim _ _ _ _ h0 λ row found h1. reject_if-elim _ _ _ _ h1 λ unused h2.
        reject_if-elim _ _ _ _ h2 λ active h3. reject_if-elim _ _ _ _ h3 λ action_active h4.
          >>=-elim _ _ _ h4 λ count db1 run1 h5. >>=-elim _ _ _ h5 λ u db2 run2 h6. record {
            claim = row.0;
            action = row.1;
            found = found;
            middle = db2;
            consumed = Consumed-ok count row.0.id user_id fresh.now db db1 db2 u run1 run2;
            granted = grant_action-ok row.1 user_id claim_code (some row.0.id) fresh db2 r db' h6;
          }
