-- ===== src/ClaimCodes/Bulk.antt =====
-- claim-codes.service.ts: `bulkUpdateStatus`.
use semcomp2026_gameficacao.Prelude.{
  ℕ, ◌+◌, ◌==◌, Bool, not, Option, none, some, List, [], ◌∷◌, ◌++◌, length, any, leb, sort_by,
  if◌then◌else◌,
}
use semcomp2026_gameficacao.Text.{Text, trim}
use semcomp2026_gameficacao.EventCode.{mask_claim_code}
use semcomp2026_gameficacao.Database.{Prisma}
use semcomp2026_gameficacao.Database.Schema.{
  Key, Fresh, ClaimCode, ClaimCodeBulkOutcome, changed, already_in_state, already_used,
  code_not_found, ClaimCodeBulkItem, ClaimCodeBulkOperation,
}
use semcomp2026_gameficacao.Database.Failure.{Result, conflict, codes_changed_concurrently}
use semcomp2026_gameficacao.Database.Tx.{
  Db, Tx, pure, ◌>>=◌, ◌>>◌, reads, reject_if, with_transaction,
}
use semcomp2026_gameficacao.Audit.{AuditInput, record_audit}
use semcomp2026_gameficacao.Audit.Contract.{
  claim_code_bulk_status_changed, OperationContext, administrator, no_metadata,
}
use semcomp2026_gameficacao.Audit.Contract
use semcomp2026_gameficacao.ClaimCodes.Repository.{
  same_bool, update_claim_code_statuses, create_bulk_operation,
}

-- `BulkClaimCodeStatusDto`, without its confirmation, which the DTO checks.
pub record BulkStatusDto : Type 0 where
  pub ids : List Key
  pub is_active : Bool
  pub reason : Text

abbrev pub is_member : Key → List Key → Bool
is_member id = any (λ i. i == id)

-- `[...new Set(ids)]`
unfoldable pub distinct : List Key → List Key
distinct [] = []
distinct (id ∷ ids) = let rest = distinct ids in if is_member id ids then rest else id ∷ rest

-- The loop's variables; `selected` is the number of ids.
pub record Progress : Type 0 where
  pub items : List ClaimCodeBulkItem
  pub changed_ids : List Key
  pub changed_count : ℕ
  pub unchanged_count : ℕ
  pub used_count : ℕ
  pub not_found_count : ℕ

abbrev pub no_progress : Progress
no_progress = record {
  items = [];
  changed_ids = [];
  changed_count = 0;
  unchanged_count = 0;
  used_count = 0;
  not_found_count = 0;
}

abbrev pub safe_item : Key → ClaimCode → ClaimCodeBulkOutcome → ClaimCodeBulkItem
safe_item id row outcome = record {
  requested_claim_code_id = id;
  claim_code_id = some id;
  masked_code = some (mask_claim_code row.code);
  outcome = outcome;
}

-- One turn of the `for`.
abbrev pub turn : Bool → Key → Option ClaimCode → Progress → Progress
turn target id none p = record p {
  not_found_count = p.not_found_count + 1;
  items =
      p.items
      ++ (record {
        requested_claim_code_id = id;
        claim_code_id = none;
        masked_code = none;
        outcome = code_not_found;
      }
          ∷ []);
}
turn target id (some row) p =
    if row.is_used
    then record p {
      used_count = p.used_count + 1;
      items = p.items ++ (safe_item id row already_used ∷ []);
    }
    else if same_bool row.is_active target
    then record p {
      unchanged_count = p.unchanged_count + 1;
      items = p.items ++ (safe_item id row already_in_state ∷ []);
    }
    else record p {
      changed_count = p.changed_count + 1;
      changed_ids = p.changed_ids ++ (id ∷ []);
      items = p.items ++ (safe_item id row changed ∷ []);
    }

abbrev pub bulk_audit : ClaimCodeBulkOperation → BulkStatusDto → OperationContext → AuditInput
bulk_audit o dto context = record {
  actor = administrator context;
  operation = claim_code_bulk_status_changed;
  entity_type = Contract.AuditEntityType.claim_code_bulk_operation;
  entity_id = o.id;
  participant_id = none;
  reason = dto.reason;
  before = none;
  after = some (
      Contract.claim_code_bulk dto.is_active o.selected_count o.changed_count o.unchanged_count
        o.used_count o.not_found_count);
  metadata = no_metadata;
}

abbrev pub bulk_operation :
    ℕ → Progress → BulkStatusDto → OperationContext → Fresh → ClaimCodeBulkOperation
bulk_operation selected p dto context fresh = record {
  id = fresh.entity_id;
  actor_admin_id = context.actor_admin_id;
  target_is_active = dto.is_active;
  reason = trim dto.reason;
  request_id = context.request_id;
  selected_count = selected;
  changed_count = p.changed_count;
  unchanged_count = p.unchanged_count;
  used_count = p.used_count;
  not_found_count = p.not_found_count;
  items = p.items;
  created_at = fresh.now;
}

abbrev by_requested_id : ClaimCodeBulkItem → ClaimCodeBulkItem → Bool
by_requested_id i j = leb i.requested_claim_code_id j.requested_claim_code_id

-- `toBulkDetail`
unfoldable pub to_bulk_detail : ClaimCodeBulkOperation → ClaimCodeBulkOperation
to_bulk_detail o = record o { items = sort_by by_requested_id o.items }

-- `[...new Set(ids)].sort()`
abbrev pub selected_ids : List Key → List Key
selected_ids ids = sort_by leb (distinct ids)

module _ ⦃P : Prisma⦄ where
  -- The `for` over the ids, with the rows that `lockClaimCodes` read.
  unfoldable pub classify : Bool → List Key → P.Table ClaimCode → Progress → Progress
  classify target [] codes p = p
  classify target (id ∷ ids) codes p =
      classify target ids codes (turn target id (P.find_unique id codes) p)

  unfoldable pub bulk_update_status_tx :
      BulkStatusDto → OperationContext → Fresh → Tx ClaimCodeBulkOperation
  unfolding classify distinct
  bulk_update_status_tx dto context fresh = do
    let ids = selected_ids dto.ids
    p ← reads (λ db. classify dto.is_active ids db.claim_codes no_progress)
    count ← update_claim_code_statuses p.changed_ids dto.is_active
    reject_if (not (count == length p.changed_ids)) (conflict codes_changed_concurrently)
    operation ← create_bulk_operation (bulk_operation (length ids) p dto context fresh)
    _ ← record_audit fresh.audit_event_id fresh.now (bulk_audit operation dto context)
    pure (to_bulk_detail operation)

  unfoldable pub bulk_update_status :
      BulkStatusDto → OperationContext → Fresh → Db → Result ClaimCodeBulkOperation × Db
  bulk_update_status dto context fresh = with_transaction (bulk_update_status_tx dto context fresh)
