-- ===== src/ClaimCodes/Tally.antt =====
-- The items and the counts of a bulk operation.
use mathlib.Core.List.{append_assoc, append-nil}
use semcomp2026_gameficacao.Prelude.{
  ℕ, ◌+◌, ◌==◌, ◌≡◌, Bool, true, false, Option, none, some, List, [], ◌∷◌, ◌++◌, arith, ap, sym,
  ◌∙◌, refl, length, filter, map, All, if◌then◌else◌, leb, sort_by, count-sort_by, length-sort_by,
  sort_by-All, Bool-cases, inl, inr, ==→eq,
}
use semcomp2026_gameficacao.Database.{Prisma}
use semcomp2026_gameficacao.Database.Schema.{
  Key, Fresh, ClaimCode, ClaimCodeBulkItem, ClaimCodeBulkOutcome, ClaimCodeBulkOperation, changed,
  already_in_state, already_used, code_not_found,
}
use semcomp2026_gameficacao.Database.Failure.{ok}
use semcomp2026_gameficacao.Database.Tx.{Db}
use semcomp2026_gameficacao.Audit.Contract.{OperationContext}
use semcomp2026_gameficacao.ClaimCodes.Repository.{same_bool}
use semcomp2026_gameficacao.ClaimCodes.Bulk.{
  BulkStatusDto, Progress, no_progress, turn, classify, distinct, is_member, selected_ids,
  safe_item, bulk_update_status, to_bulk_detail, bulk_operation,
}
use semcomp2026_gameficacao.ClaimCodes.Switched.{BulkDone-ok}

abbrev pub same_outcome : ClaimCodeBulkOutcome → ClaimCodeBulkOutcome → Bool
same_outcome changed changed = true
same_outcome already_in_state already_in_state = true
same_outcome already_used already_used = true
same_outcome code_not_found code_not_found = true
same_outcome _ _ = false

-- The count of a reply that stands for an outcome.
abbrev pub count_in : ClaimCodeBulkOutcome → ClaimCodeBulkOperation → ℕ
count_in changed r = r.changed_count
count_in already_in_state r = r.unchanged_count
count_in already_used r = r.used_count
count_in code_not_found r = r.not_found_count

abbrev count_of : ClaimCodeBulkOutcome → Progress → ℕ
count_of changed p = p.changed_count
count_of already_in_state p = p.unchanged_count
count_of already_used p = p.used_count
count_of code_not_found p = p.not_found_count

-- What became of a code that is found as it is.
abbrev pub outcome_of : Bool → Option ClaimCode → ClaimCodeBulkOutcome
outcome_of target none = code_not_found
outcome_of target (some c) =
    if c.is_used
    then already_used
    else if same_bool c.is_active target
    then already_in_state
    else changed

abbrev item_of : Bool → Key → Option ClaimCode → ClaimCodeBulkItem
item_of target id none = record {
  requested_claim_code_id = id;
  claim_code_id = none;
  masked_code = none;
  outcome = code_not_found;
}
item_of target id (some c) = safe_item id c (outcome_of target (some c))

abbrev bit : Bool → ℕ
bit b = if b then 1 else 0

turn-items :
    (target : Bool) (id : Key) (o : Option ClaimCode) (p : Progress)
    → (turn target id o p).items ≡ p.items ++ (item_of target id o ∷ [])
turn-items target id none p = refl
turn-items target id (some c) p = ground arith

turn-count_of :
    (k : ClaimCodeBulkOutcome) (target : Bool) (id : Key) (o : Option ClaimCode) (p : Progress)
    → count_of k (turn target id o p) ≡ count_of k p + bit (same_outcome k (outcome_of target o))
turn-count_of changed target id none p = omega arith
turn-count_of already_in_state target id none p = omega arith
turn-count_of already_used target id none p = omega arith
turn-count_of code_not_found target id none p = omega arith
turn-count_of changed target id (some c) p = ground arith
turn-count_of already_in_state target id (some c) p = ground arith
turn-count_of already_used target id (some c) p = ground arith
turn-count_of code_not_found target id (some c) p = ground arith

item_of-requested :
    (target : Bool) (id : Key) (o : Option ClaimCode)
    → (item_of target id o).requested_claim_code_id ≡ id
item_of-requested target id none = refl
item_of-requested target id (some c) = refl

item_of-outcome :
    (target : Bool) (id : Key) (o : Option ClaimCode)
    → (item_of target id o).outcome ≡ outcome_of target o
item_of-outcome target id none = refl
item_of-outcome target id (some c) = refl

abbrev times : Key → List Key → ℕ
times id ids = length (filter (λ i. i == id) ids)

-- A list without repetitions has each of its ids once.
times-distinct : (id : Key) (ids : List Key) → times id (distinct ids) ≡ bit (is_member id ids)
unfolding distinct
times-distinct id [] = refl
times-distinct id (i ∷ ids) = elim (Bool-cases (i == id)) [
  | inl same ↦ ground (arith, times-distinct id ids, ==→eq i id)
  | inr other ↦ ground (arith, times-distinct id ids, other)
]

module _ ⦃P : Prisma⦄ (target : Bool) (codes : P.Table ClaimCode) where
  abbrev items_of : List Key → List ClaimCodeBulkItem
  items_of = map λ id. item_of target id (P.find_unique id codes)

  classify-items :
      (ids : List Key) (p : Progress)
      → (classify target ids codes p).items ≡ p.items ++ items_of ids
  unfolding classify
  classify-items [] p = sym (append-nil p.items)
  classify-items (id ∷ ids) p =
      let item = item_of target id (P.find_unique id codes) in
      classify-items ids (turn target id (P.find_unique id codes) p)
      ∙ ap (λ xs. xs ++ items_of ids) (turn-items target id (P.find_unique id codes) p)
      ∙ append_assoc p.items (item ∷ []) (items_of ids)

  classify-count_of :
      (k : ClaimCodeBulkOutcome) (ids : List Key) (p : Progress)
      → count_of k (classify target ids codes p)
        ≡ count_of k p
          + length (filter (λ (i : ClaimCodeBulkItem). same_outcome k i.outcome) (items_of ids))
  unfolding classify
  classify-count_of k [] p = omega arith
  classify-count_of k (id ∷ ids) p = ground (
    arith,
    classify-count_of k ids (turn target id (P.find_unique id codes) p),
    turn-count_of k target id (P.find_unique id codes) p,
    item_of-outcome target id (P.find_unique id codes),
  )

  items_of-requested :
      (id : Key) (ids : List Key)
      → length (filter (λ (i : ClaimCodeBulkItem). i.requested_claim_code_id == id) (items_of ids))
        ≡ times id ids
  items_of-requested id [] = refl
  items_of-requested id (i ∷ ids) =
      ground (arith, items_of-requested id ids, item_of-requested target i (P.find_unique i codes))

  abbrev pub IsTold : ClaimCodeBulkItem → Type 0
  IsTold i = i.outcome ≡ outcome_of target (P.find_unique i.requested_claim_code_id codes)

  items_of-IsTold : (ids : List Key) → All IsTold (items_of ids)
  items_of-IsTold [] = tt
  items_of-IsTold (id ∷ ids) = (
    item_of-outcome target id (P.find_unique id codes)
        ∙ ap (λ k. outcome_of target (P.find_unique k codes))
            (sym (item_of-requested target id (P.find_unique id codes))),
    items_of-IsTold ids,
  )

  length-items_of : (ids : List Key) → length (items_of ids) ≡ length ids
  length-items_of [] = refl
  length-items_of (id ∷ ids) = omega (arith, length-items_of ids)

-- The counts of the loop are those of the reply.
count_in-kept :
    (k : ClaimCodeBulkOutcome) (selected : ℕ) (p : Progress) (dto : BulkStatusDto)
    (context : OperationContext) (fresh : Fresh)
    → count_in k (to_bulk_detail (bulk_operation selected p dto context fresh)) ≡ count_of k p
unfolding to_bulk_detail
count_in-kept changed selected p dto context fresh = refl
count_in-kept already_in_state selected p dto context fresh = refl
count_in-kept already_used selected p dto context fresh = refl
count_in-kept code_not_found selected p dto context fresh = refl

plus_none : (n : ℕ) → 0 + n ≡ n
plus_none n = omega arith

none_counted : (k : ClaimCodeBulkOutcome) → count_of k no_progress ≡ 0
none_counted changed = refl
none_counted already_in_state = refl
none_counted already_used = refl
none_counted code_not_found = refl

module _ ⦃P : Prisma⦄ where
  -- If a bulk operation returned, each id of the request has one item and no other id has any; each
  -- item says what its code was found as before; and each of the four counts is the number of the
  -- items of its outcome, and the number of the selected ids is that of all items.
  pub bulk_update_status-items :
      (dto : BulkStatusDto) (context : OperationContext) (fresh : Fresh) (db : Db)
      (r : ClaimCodeBulkOperation) (id : Key) (k : ClaimCodeBulkOutcome)
      → (bulk_update_status dto context fresh db).0 ≡ ok r
      → (length (filter (λ (i : ClaimCodeBulkItem). i.requested_claim_code_id == id) r.items)
          ≡ (if is_member id dto.ids then 1 else 0))
        × All (IsTold dto.is_active db.claim_codes) r.items
        × (count_in k r
            ≡ length (filter (λ (i : ClaimCodeBulkItem). same_outcome k i.outcome) r.items))
        × (r.selected_count ≡ length r.items)
  unfolding to_bulk_detail
  bulk_update_status-items dto context fresh db r id k h =
      let b = BulkDone-ok dto context fresh db r h in
      let target = dto.is_active in
      let codes = db.claim_codes in
      let ids = selected_ids dto.ids in
      let p = classify target ids codes no_progress in
      let before =
        λ (i j : ClaimCodeBulkItem). leb i.requested_claim_code_id j.requested_claim_code_id in
      let listed : p.items ≡ items_of target codes ids =
        classify-items target codes ids no_progress in
      let items : r.items ≡ sort_by before (items_of target codes ids) =
        ap (λ (o : ClaimCodeBulkOperation). o.items) b.reply ∙ ap (sort_by before) listed in
      let requested = λ (i : ClaimCodeBulkItem). i.requested_claim_code_id == id in
      let outcome = λ (i : ClaimCodeBulkItem). same_outcome k i.outcome in
      (
        ap (λ xs. length (filter requested xs)) items
            ∙ count-sort_by before requested (items_of target codes ids)
            ∙ items_of-requested target codes id ids
            ∙ count-sort_by leb (λ i. i == id) (distinct dto.ids)
            ∙ times-distinct id dto.ids,
        rw (items) (sort_by-All before _ _ (items_of-IsTold target codes ids)),
        ap (count_in k) b.reply
            ∙ count_in-kept k (length ids) p dto context fresh
            ∙ classify-count_of target codes k ids no_progress
            ∙ ap (λ n. n + length (filter outcome (items_of target codes ids))) (none_counted k)
            ∙ plus_none (length (filter outcome (items_of target codes ids)))
            ∙ sym (count-sort_by before outcome (items_of target codes ids))
            ∙ sym (ap (λ xs. length (filter outcome xs)) items),
        ap (λ (o : ClaimCodeBulkOperation). o.selected_count) b.reply
            ∙ sym (length-items_of target codes ids)
            ∙ sym (length-sort_by before (items_of target codes ids))
            ∙ sym (ap length items),
      )
