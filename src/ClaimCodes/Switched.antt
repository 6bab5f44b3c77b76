-- ===== src/ClaimCodes/Switched.antt =====
-- Which codes a bulk operation switches.
use mathlib.Core.Option
use semcomp2026_gameficacao.Prelude.{
  ◌≡◌, ◌==◌, Bool, false, ◌&&◌, ◌||◌, Option, none, some, List, [], ◌∷◌, ◌++◌, arith, refl, ap, ◌∙◌,
  ==→eq, Bool-cases, inl, inr, leb, if◌then◌else◌, length, any-sort_by,
}
use semcomp2026_gameficacao.Database.{Prisma}
use semcomp2026_gameficacao.Database.Schema.{Key, Fresh, ClaimCode, ClaimCodeBulkOperation}
use semcomp2026_gameficacao.Database.Failure.{ok}
use semcomp2026_gameficacao.Database.Tx.{Db}
use semcomp2026_gameficacao.Database.Inversion.{>>=-elim, reads-elim, reject_if-elim, pure-ok}
use semcomp2026_gameficacao.Audit.Record.{record_audit-ok}
use semcomp2026_gameficacao.Audit.Contract.{OperationContext}
use semcomp2026_gameficacao.ClaimCodes.Repository.{
  switched, is_switchable, switch_all, update_claim_code_statuses, create_bulk_operation,
}
use semcomp2026_gameficacao.ClaimCodes.Bulk.{
  BulkStatusDto, is_member, distinct, Progress, no_progress, turn, classify, selected_ids,
  bulk_operation, bulk_update_status_tx, bulk_update_status, to_bulk_detail,
}

-- A used code stays as it is.
abbrev pub after_switch : Bool → ClaimCode → ClaimCode
after_switch target c = if is_switchable target c then switched target c else c

after_switch-after_switch :
    (target : Bool) (c : ClaimCode)
    → after_switch target (after_switch target c) ≡ after_switch target c
after_switch-after_switch target c = ground arith

map-after_switch :
    (target : Bool) (o : Option ClaimCode)
    → Option.map (after_switch target) (Option.map (after_switch target) o)
      ≡ Option.map (after_switch target) o
map-after_switch target none = refl
map-after_switch target (some c) = ap some (after_switch-after_switch target c)

abbrev switchable_at : Bool → Option ClaimCode → Bool
switchable_at target none = false
switchable_at target (some c) = is_switchable target c

unswitchable-same :
    (target : Bool) (o : Option ClaimCode)
    → switchable_at target o ≡ false
    → Option.map (after_switch target) o ≡ o
unswitchable-same target none h = refl
unswitchable-same target (some c) h = ground (arith, h)

member-append :
    (j id : Key) (ids : List Key) → is_member j (ids ++ (id ∷ [])) ≡ is_member j ids || id == j
member-append j id [] = ground arith
member-append j id (i ∷ ids) = ground (arith, member-append j id ids)

member-distinct : (j : Key) (ids : List Key) → is_member j (distinct ids) ≡ is_member j ids
unfolding distinct
member-distinct j [] = refl
member-distinct j (id ∷ ids) = elim (Bool-cases (id == j)) [
  | inl same ↦ ground (arith, member-distinct j ids, ==→eq id j)
  | inr other ↦ ground (arith, member-distinct j ids, other)
]

turn-changed_ids :
    (target : Bool) (j id : Key) (o : Option ClaimCode) (p : Progress)
    → is_member j (turn target id o p).changed_ids
      ≡ is_member j p.changed_ids || id == j && switchable_at target o
turn-changed_ids target j id none p = ground arith
turn-changed_ids target j id (some c) p = ground (arith, member-append j id p.changed_ids)

module _ ⦃P : Prisma⦄ where
  find_unique-switch_all :
      (ids : List Key) (target : Bool) (codes : P.Table ClaimCode) (j : Key)
      → P.find_unique j (switch_all ids target codes).0 ≡ (
          if is_member j ids
          then Option.map (after_switch target) (P.find_unique j codes)
          else P.find_unique j codes)
  unfolding switch_all
  find_unique-switch_all [] target codes j = refl
  find_unique-switch_all (id ∷ ids) target codes j =
      let one = (P.update_many id (is_switchable target) (switched target) codes).0 in
      let rest = find_unique-switch_all ids target one j in
      let here = P.find_unique-update_many id j (is_switchable target) (switched target) codes in
      ground (arith, rest, here, map-after_switch target (P.find_unique j codes))

  classify-changed_ids :
      (target : Bool) (ids : List Key) (codes : P.Table ClaimCode) (p : Progress) (j : Key)
      → is_member j (classify target ids codes p).changed_ids
        ≡ is_member j p.changed_ids
          || is_member j ids && switchable_at target (P.find_unique j codes)
  unfolding classify
  classify-changed_ids target [] codes p j = ground arith
  classify-changed_ids target (id ∷ ids) codes p j =
      let next = turn target id (P.find_unique id codes) p in
      let rest = classify-changed_ids target ids codes next j in
      let here = turn-changed_ids target j id (P.find_unique id codes) p in
      elim (Bool-cases (id == j)) [
        | inl same ↦ ground (arith, rest, here, ==→eq id j)
        | inr other ↦ ground (arith, rest, here, other)
      ]

  pub record BulkDone (dto : BulkStatusDto) (context : OperationContext) (fresh : Fresh) (db : Db)
      (r : ClaimCodeBulkOperation) (db' : Db) : Type 0 where
    pub reply :
        r
        ≡ to_bulk_detail (
            bulk_operation
              (length (selected_ids dto.ids))
              (classify dto.is_active (selected_ids dto.ids) db.claim_codes no_progress)
              dto
              context
              fresh)
    pub codes :
        db'.claim_codes
        ≡ (switch_all
            (classify dto.is_active (selected_ids dto.ids) db.claim_codes no_progress).changed_ids
            dto.is_active
            db.claim_codes).0
    pub frame : db' ≡ record db {
      claim_codes = db'.claim_codes;
      bulk_operations = db'.bulk_operations;
      audit_events = db'.audit_events;
    }

  pub bulk_update_status_tx-ok :
      (dto : BulkStatusDto) (context : OperationContext) (fresh : Fresh) (db : Db)
      (r : ClaimCodeBulkOperation) (db' : Db)
      → bulk_update_status_tx dto context fresh db ≡ ok (r, db')
      → BulkDone dto context fresh db r db'
  unfolding bulk_update_status_tx update_claim_code_statuses create_bulk_operation
  bulk_update_status_tx-ok dto context fresh db r db' h = reads-elim _ _ _ h λ h0.
      >>=-elim _ _ _ h0 λ count db1 run1 h1. reject_if-elim _ _ _ _ h1 λ counted h2.
        >>=-elim _ _ _ h2 λ operation db2 run2 h3. >>=-elim _ _ _ h3 λ audit db3 run3 h4.
          let last = pure-ok _ db3 h4 in
          let a = record_audit-ok _ _ _ db2 audit db3 run3 in
          let codes : db2.claim_codes ≡ db1.claim_codes = ground (arith, run2) in
          record {
            reply = ground (arith, last.0, run2);
            codes = ground (arith, last.1, a.state, codes, run1);
            frame = ground (arith, last.1, a.state, run2, run1);
          }

  pub BulkDone-ok :
      (dto : BulkStatusDto) (context : OperationContext) (fresh : Fresh) (db : Db)
      (r : ClaimCodeBulkOperation)
      → (bulk_update_status dto context fresh db).0 ≡ ok r
      → BulkDone dto context fresh db r (bulk_update_status dto context fresh db).1
  unfolding bulk_update_status
  BulkDone-ok dto context fresh db r h =
      let db' = (bulk_update_status dto context fresh db).1 in
      bulk_update_status_tx-ok dto context fresh db r db' (ground arith)

  pub BulkDone-find_unique :
      (dto : BulkStatusDto) (context : OperationContext) (fresh : Fresh) (db : Db)
      (r : ClaimCodeBulkOperation) (db' : Db)
      → BulkDone dto context fresh db r db'
      → (j : Key)
      → P.find_unique j db'.claim_codes ≡ (
          if is_member j dto.ids
          then Option.map (after_switch dto.is_active) (P.find_unique j db.claim_codes)
          else P.find_unique j db.claim_codes)
  BulkDone-find_unique dto context fresh db r db' b j =
      let target = dto.is_active in
      let ids = selected_ids dto.ids in
      let p = classify target ids db.claim_codes no_progress in
      let looked = find_unique-switch_all p.changed_ids target db.claim_codes j in
      let member = classify-changed_ids target ids db.claim_codes no_progress j in
      let chosen : is_member j ids ≡ is_member j dto.ids =
        any-sort_by leb (λ i. i == j) (distinct dto.ids) ∙ member-distinct j dto.ids in
      let found = ap (λ t. P.find_unique j t) b.codes in
      let still = unswitchable-same target (P.find_unique j db.claim_codes) in
      ground (arith, found, looked, member, chosen, still)

  -- If a bulk operation returned, a code of the selection that is not used has the wanted status, and
  -- every other code, a used one among them, is as it was.
  pub find_unique-bulk_update_status :
      (dto : BulkStatusDto) (context : OperationContext) (fresh : Fresh) (db : Db)
      (r : ClaimCodeBulkOperation) (j : Key)
      → (bulk_update_status dto context fresh db).0 ≡ ok r
      → P.find_unique j (bulk_update_status dto context fresh db).1.claim_codes ≡ (
          if is_member j dto.ids
          then Option.map (after_switch dto.is_active) (P.find_unique j db.claim_codes)
          else P.find_unique j db.claim_codes)
  find_unique-bulk_update_status dto context fresh db r j h =
      BulkDone-find_unique dto context fresh db r _ (BulkDone-ok dto context fresh db r h) j
