-- ===== src/System/UsedCodes.antt =====
-- A claim code over a run of requests, from its redemption on.
use semcomp2026_gameficacao.Prelude.{◌≡◌, true, false, refl, some, arith, List, [], ◌∷◌, ==-refl}
use semcomp2026_gameficacao.Text.{Text}
use semcomp2026_gameficacao.Database.{Prisma}
use semcomp2026_gameficacao.Database.Schema.{Key, Fresh, Action, ClaimCode}
use semcomp2026_gameficacao.Database.Failure.{
  ok, is_ok, translate_conflict, action_already_redeemed,
}
use semcomp2026_gameficacao.Database.Tx.{Db}
use semcomp2026_gameficacao.Database.Inversion.{rethrow-ok}
use semcomp2026_gameficacao.Actions.Repository.{find_claim_code_for_redemption, used}
use semcomp2026_gameficacao.Actions.Redeem.{Redemption, redeem_claim_code, redeem_claim_code_tx}
use semcomp2026_gameficacao.Actions.Redeemed.{ClaimRedeemed, redeem_claim_code_tx-ok}
use semcomp2026_gameficacao.Accounts.Activated.{not_ok}
use semcomp2026_gameficacao.System.{Request, serve, run}
use semcomp2026_gameficacao.System.Effect.{UsedStay}
use semcomp2026_gameficacao.System.Requests.{serve-Served}

module _ ⦃P : Prisma⦄ where
  run-UsedStay : (requests : List Request) (db : Db) → UsedStay db (run requests db)
  unfolding run
  run-UsedStay [] db j c found is_used = found
  run-UsedStay (request ∷ requests) db j c found is_used =
      let next = (serve request db).1 in
      run-UsedStay requests next j c ((serve-Served request db).codes j c found is_used) is_used

  ClaimRedeemed-ok :
      (code : Text) (user_id : Key) (fresh : Fresh) (db : Db) {r : Redemption}
      → (redeem_claim_code code user_id fresh db).0 ≡ ok r
      → ClaimRedeemed code user_id fresh db r (redeem_claim_code code user_id fresh db).1
  unfolding redeem_claim_code
  ClaimRedeemed-ok code user_id fresh db {r} h =
      redeem_claim_code_tx-ok code user_id fresh db r (redeem_claim_code code user_id fresh db).1 (
        rethrow-ok (translate_conflict action_already_redeemed)
          (redeem_claim_code_tx code user_id fresh) db h)

  -- The row of the code once it was redeemed.
  spent :
      (code : Text) (user_id : Key) (fresh : Fresh) (db : Db) (r : Redemption) (db' : Db)
      (g : ClaimRedeemed code user_id fresh db r db')
      → P.find_unique g.claim.id db'.claim_codes ≡ some (used user_id fresh.now g.consumed.code)
  spent code user_id fresh db r db' g =
      ground (arith, g.granted.frame, g.consumed.codes g.claim.id, ==-refl g.claim.id)

  -- A code whose row is used is not redeemed.
  refused :
      (code : Text) (user_id : Key) (fresh : Fresh) (db : Db) (claim row : ClaimCode)
      (action : Action)
      → find_claim_code_for_redemption code db ≡ some (claim, action)
      → P.find_unique claim.id db.claim_codes ≡ some row
      → row.is_used ≡ true
      → is_ok (redeem_claim_code code user_id fresh db).0 ≡ false
  refused code user_id fresh db claim row action found at_id is_used =
      not_ok (redeem_claim_code code user_id fresh db).0 λ r h.
        let g = ClaimRedeemed-ok code user_id fresh db h in
        let same : g.claim ≡ claim = ground (arith, g.found, found) in
        ground (arith, same, g.consumed.found, at_id, g.consumed.unused, is_used)

  -- Once a participant redeemed a claim code, then after any requests the row that was redeemed shows
  -- that participant and that time and is switched off, and no request for a code that is looked up
  -- as a row of the same id redeems it again.
  pub redeem_claim_code-run :
      (code again : Text) (user_id other : Key) (fresh later : Fresh) (requests : List Request)
      (db : Db) (r : Redemption) (claim row : ClaimCode) (action of_row : Action)
      → find_claim_code_for_redemption code db ≡ some (claim, action)
      → (redeem_claim_code code user_id fresh db).0 ≡ ok r
      → find_claim_code_for_redemption again
          (run requests (redeem_claim_code code user_id fresh db).1)
        ≡ some (row, of_row)
      → row.id ≡ claim.id
      → let after = run requests (redeem_claim_code code user_id fresh db).1 in
        ((c : ClaimCode) × (P.find_unique claim.id after.claim_codes ≡ some c)
          × (c.is_used ≡ true)
          × (c.is_active ≡ false)
          × (c.used_by_id ≡ some user_id)
          × (c.used_at ≡ some fresh.now))
        × (is_ok (redeem_claim_code again other later after).0 ≡ false)
  redeem_claim_code-run code again user_id other fresh later requests db r claim row action of_row
        found first looked same =
      let db' = (redeem_claim_code code user_id fresh db).1 in
      let g = ClaimRedeemed-ok code user_id fresh db first in
      let given : g.claim ≡ claim = ground (arith, g.found, found) in
      let there : P.find_unique g.claim.id (run requests db').claim_codes
          ≡ some (used user_id fresh.now g.consumed.code) =
        run-UsedStay requests db' g.claim.id (used user_id fresh.now g.consumed.code)
          (spent code user_id fresh db r db' g) refl in
      (
        (
          used user_id fresh.now g.consumed.code,
          ground (arith, there, given),
          refl,
          refl,
          refl,
          refl,
        ),
        refused again other later (run requests db') row (used user_id fresh.now g.consumed.code)
            of_row looked (ground (arith, there, given, same)) refl,
      )
