-- ===== src/ClaimCodes/Generate.antt =====
-- claim-codes.service.ts: `generateBatch`. The codes that `generateClaimCode` draws, one after
-- another, and the ids of new rows are the runtime's: `draw n` and `cuid n` are the n-th ones.
use semcomp2026_gameficacao.Prelude.{
  ℕ, zero, suc, ◌+◌, ◌-◌, ◌*◌, ◌==◌, Bool, true, false, ◌||◌, Option, none, some, List, [], ◌∷◌,
  ◌++◌, length, any, ltb, sort_by, if◌then◌else◌,
}
use semcomp2026_gameficacao.Text.{Text, text_eq}
use semcomp2026_gameficacao.Database.{Prisma}
use semcomp2026_gameficacao.Database.Schema.{Key, Date, Fresh, Action, ClaimCode, ClaimCodeBatch}
use semcomp2026_gameficacao.Database.Failure.{
  Result, ok, err, fault, not_found, action_not_found, service_unavailable,
}
use semcomp2026_gameficacao.Database.Tx.{
  Db, Tx, pure, ◌>>=◌, ◌>>◌, reads, or_throw, reject_if, with_transaction,
}
use semcomp2026_gameficacao.Audit.{AuditInput, record_audit}
use semcomp2026_gameficacao.Audit.Contract.{
  claim_code_batch_generated, OperationContext, administrator, no_metadata,
}
use semcomp2026_gameficacao.Audit.Contract

-- `GenerateClaimCodesDto`
pub record GenerateDto : Type 0 where
  pub quantity : ℕ
  pub reason : Text

-- `ClaimCodeBatchSummary`, without the names of the action and of the administrator.
pub record BatchCounts : Type 0 where
  pub available : ℕ
  pub disabled : ℕ
  pub used : ℕ
  pub blocked : ℕ

pub record Generated : Type 0 where
  pub batch : ClaimCodeBatch
  pub counts : BatchCounts
  pub action : Key × Text
  pub quantity : ℕ
  pub codes : List Text

-- `<=` of two strings, as `sort` asks.
unfoldable pub text_leb : Text → Text → Bool
text_leb [] t = true
text_leb (c ∷ s) [] = false
text_leb (c ∷ s) (d ∷ t) = let rest = text_leb s t in if c == d then rest else ltb c d

abbrev pub max_generation_rounds : ℕ
max_generation_rounds = 5

abbrev pub max_generation_attempts_per_code : ℕ
max_generation_attempts_per_code = 10

-- `candidates.add(code)`
abbrev pub add : List Text → Text → List Text
add set code = if any (text_eq code) set then set else set ++ (code ∷ [])

abbrev pub batch_counts : Bool → ℕ → BatchCounts
batch_counts true n = record { available = n; disabled = 0; used = 0; blocked = 0 }
batch_counts false n = record { available = 0; disabled = 0; used = 0; blocked = n }

-- Neither the code nor the id is taken.
abbrev pub is_free : Text → (same unique : Option ClaimCode) → Bool
is_free code none none = true
is_free code _ _ = false

abbrev pub generation_audit : ClaimCodeBatch → ℕ → GenerateDto → OperationContext → AuditInput
generation_audit batch created dto context = record {
  actor = administrator context;
  operation = claim_code_batch_generated;
  entity_type = Contract.AuditEntityType.claim_code_batch;
  entity_id = batch.id;
  participant_id = none;
  reason = dto.reason;
  before = none;
  after = some (Contract.claim_code_batch dto.quantity created batch.action_id);
  metadata = no_metadata;
}

module _ ⦃P : Prisma⦄ where
  abbrev store_batch : ClaimCodeBatch → Option ClaimCodeBatch → Tx ClaimCodeBatch
  store_batch b none db =
      ok (b, record db { claim_code_batches = P.create b.id b db.claim_code_batches })
  store_batch b (some old) db = err fault

  -- `createBatch`; the id and the id of the request are unique.
  unfoldable pub create_batch : ClaimCodeBatch → Tx ClaimCodeBatch
  create_batch b db =
      store_batch b
        (P.find_first (λ (p : ClaimCodeBatch). b.id == p.id || b.request_id == p.request_id)
          db.claim_code_batches)
        db

module _ ⦃P : Prisma⦄ (draw : ℕ → Text) (cuid : ℕ → Key) where
  -- The inner `for`: `next` is the number of codes drawn so far.
  unfoldable pub draw_candidates : (attempts remaining next : ℕ) → List Text → List Text × ℕ
  draw_candidates zero remaining next set = (set, next)
  draw_candidates (suc attempts) remaining next set =
      let more = draw_candidates attempts remaining (next + 1) (add set (draw next)) in
      if ltb (length set) remaining then more else (set, next)

  abbrev pub new_code : ℕ → Key → Key → Date → Text → ClaimCode
  new_code n action_id batch_id now code = record {
    id = cuid n;
    code = code;
    action_id = action_id;
    is_used = false;
    is_active = true;
    used_by_id = none;
    used_at = none;
    batch_id = some batch_id;
    created_at = now;
  }

  -- `insertClaimCodes` with `skipDuplicates`: the codes that were inserted, the table, and the number
  -- of ids drawn so far.
  unfoldable pub insert_claim_codes :
      List Text
      → (action_id batch_id : Key) → Date
      → ℕ
      → P.Table ClaimCode
      → List Text × P.Table ClaimCode × ℕ
  insert_claim_codes [] action_id batch_id now n codes = ([], codes, n)
  insert_claim_codes (code ∷ rest) action_id batch_id now n codes =
      let row = new_code n action_id batch_id now code in
      let skipped = insert_claim_codes rest action_id batch_id now (n + 1) codes in
      let (inserted, table, ids) =
        insert_claim_codes rest action_id batch_id now (n + 1) (P.create row.id row codes) in
      if is_free code (P.find_first (λ (c : ClaimCode). text_eq code c.code) codes)
        (P.find_unique row.id codes)
      then (code ∷ inserted, table, ids)
      else skipped

  -- The outer `for`: at most `rounds` more rounds, after `next` codes and `n` ids were drawn.
  unfoldable pub generate_rounds :
      (rounds quantity : ℕ)
      → (action_id batch_id : Key) → Date
      → List Text
      → (next n : ℕ) → P.Table ClaimCode
      → List Text × P.Table ClaimCode
  unfolding draw_candidates insert_claim_codes
  generate_rounds zero quantity action_id batch_id now inserted next n codes = (inserted, codes)
  generate_rounds (suc rounds) quantity action_id batch_id now inserted next n codes =
      let remaining = quantity - length inserted in
      let (candidates, drawn) =
        draw_candidates (remaining * max_generation_attempts_per_code) remaining next [] in
      let (new, table, ids) = insert_claim_codes candidates action_id batch_id now n codes in
      let more =
        generate_rounds rounds quantity action_id batch_id now (inserted ++ new) drawn ids table in
      if ltb (length inserted) quantity then more else (inserted, codes)

  unfoldable pub insert_batch_codes : ℕ → (action_id batch_id : Key) → Date → Tx (List Text)
  unfolding generate_rounds
  insert_batch_codes quantity action_id batch_id now db =
      let (inserted, codes) =
        generate_rounds max_generation_rounds quantity action_id batch_id now [] 0 0
          db.claim_codes in
      ok (inserted, record db { claim_codes = codes })

  abbrev pub batch_row : GenerateDto → Action → OperationContext → Fresh → ClaimCodeBatch
  batch_row dto action context fresh = record {
    id = fresh.entity_id;
    action_id = action.id;
    created_by_admin_id = context.actor_admin_id;
    requested_quantity = dto.quantity;
    created_quantity = dto.quantity;
    reason = dto.reason;
    request_id = context.request_id;
    created_at = fresh.now;
  }

  abbrev generated : ClaimCodeBatch → Action → List Text → Generated
  generated batch action inserted = record {
    batch = record batch { created_quantity = length inserted };
    counts = batch_counts action.is_active (length inserted);
    action = (action.id, action.name);
    quantity = length inserted;
    codes = sort_by text_leb inserted;
  }

  unfoldable pub generate_batch_tx : Key → GenerateDto → OperationContext → Fresh → Tx Generated
  generate_batch_tx action_id dto context fresh = do
    found ← reads (λ db. P.find_unique action_id db.actions)
    action ← or_throw found (not_found action_not_found)
    batch ← create_batch (batch_row dto action context fresh)
    inserted ← insert_batch_codes dto.quantity action_id batch.id fresh.now
    reject_if (ltb (length inserted) dto.quantity) service_unavailable
    _ ←
        record_audit fresh.audit_event_id fresh.now
          (generation_audit batch (length inserted) dto context)
    pure (generated batch action inserted)

  unfoldable pub generate_batch :
      Key → GenerateDto → OperationContext → Fresh → Db → Result Generated × Db
  generate_batch action_id dto context fresh =
      with_transaction (generate_batch_tx action_id dto context fresh)
