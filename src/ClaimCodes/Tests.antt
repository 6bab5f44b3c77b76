-- ===== src/ClaimCodes/Tests.antt =====
-- Two codes of the sample activity, one of them used, and a batch of two.
use mathlib.Core.Option
use semcomp2026_gameficacao.Prelude.{
  ◌≡◌, ◌+◌, ◌==◌, refl, true, false, none, some, ℕ, [], ◌∷◌, length, filter, All, if◌then◌else◌,
  sort_by, insert_by,
}
use semcomp2026_gameficacao.Text.{Text, text, trim}
use semcomp2026_gameficacao.EventCode.{mask_claim_code, stars}
use semcomp2026_gameficacao.Database.Memory.{memory}
use semcomp2026_gameficacao.Database.Schema.{
  Key, ClaimCode, ClaimCodeBulkItem, ClaimCodeBulkOperation, changed, already_used, code_not_found,
}
use semcomp2026_gameficacao.Database.Failure.{ok}
use semcomp2026_gameficacao.Database.Tx.{Db, ◌>>=◌}
use semcomp2026_gameficacao.Audit.{record_audit, write_audit, valid_contract, valid_snapshot}
use semcomp2026_gameficacao.Audit.Contract.{operation_rules}
use semcomp2026_gameficacao.Samples.{start, fresh_from, admin_context}
use semcomp2026_gameficacao.ClaimCodes.Repository.{
  update_claim_code_status, update_claim_code_statuses, switch_all, create_bulk_operation,
}
use semcomp2026_gameficacao.ClaimCodes.Status.{
  UpdateStatusDto, History, disabled, update_status, update_status_tx, switch_status,
}
use semcomp2026_gameficacao.ClaimCodes.Bulk.{
  BulkStatusDto, is_member, distinct, classify, bulk_update_status, bulk_update_status_tx,
  to_bulk_detail,
}
use semcomp2026_gameficacao.ClaimCodes.Switched.{after_switch, find_unique-bulk_update_status}
use semcomp2026_gameficacao.ClaimCodes.Tally.{
  IsTold, count_in, same_outcome, bulk_update_status-items,
}
use semcomp2026_gameficacao.ClaimCodes.Settled.{update_status-update_status}
use semcomp2026_gameficacao.ClaimCodes.Generate.{
  GenerateDto, Generated, generate_batch, generate_batch_tx, create_batch, insert_batch_codes,
  generate_rounds, draw_candidates, insert_claim_codes, text_leb,
}
use semcomp2026_gameficacao.ClaimCodes.Batch.{generate_batch-Made}
use semcomp2026_gameficacao.ClaimCodes.Made.{Made}

abbrev unused_code : ClaimCode
unused_code = record {
  id = 30;
  code = text "K7QW2M";
  action_id = 10;
  is_used = false;
  is_active = true;
  used_by_id = none;
  used_at = none;
  batch_id = none;
  created_at = 0;
}

abbrev used_code : ClaimCode
used_code = record unused_code {
  id = 31;
  code = text "X9PL4T";
  is_used = true;
  used_by_id = some 1;
  used_at = some 5;
}

abbrev stocked : Db ⦃P = memory⦄
stocked = record start { claim_codes = (30, unused_code) ∷ (31, used_code) ∷ [] }

abbrev off : UpdateStatusDto
off = record { is_active = false; reason = text "Cartaz retirado" }

abbrev off_reply : History
off_reply = record {
  id = 30;
  code = text "K7QW2M";
  is_active = false;
  is_used = false;
  used_by = none;
  created_at = 0;
  used_at = none;
  action = (10, text "Abertura");
  status = disabled;
}

update_status-update_status_example :
    update_status ⦃P = memory⦄ 30 off admin_context
      (fresh_from 501)
      (update_status ⦃P = memory⦄ 30 off admin_context (fresh_from 500) stocked).1
    ≡ (ok off_reply, (update_status ⦃P = memory⦄ 30 off admin_context (fresh_from 500) stocked).1)
unfolding update_status update_status_tx switch_status update_claim_code_status record_audit
    write_audit valid_contract valid_snapshot operation_rules trim ◌>>=◌
update_status-update_status_example =
    update_status-update_status ⦃P = memory⦄ 30 off admin_context admin_context (fresh_from 500)
      (fresh_from 501) stocked off_reply refl

abbrev all_off : BulkStatusDto
all_off = record {
  ids = 31 ∷ 30 ∷ 32 ∷ 30 ∷ [];
  is_active = false;
  reason = text "Cartaz retirado";
}

abbrev all_off_reply : ClaimCodeBulkOperation
all_off_reply = record {
  id = 502;
  actor_admin_id = 99;
  target_is_active = false;
  reason = text "Cartaz retirado";
  request_id = 5;
  selected_count = 3;
  changed_count = 1;
  unchanged_count = 0;
  used_count = 1;
  not_found_count = 1;
  items =
      record {
        requested_claim_code_id = 30;
        claim_code_id = some 30;
        masked_code = some (text "K7**2M");
        outcome = changed;
      }
      ∷ record {
        requested_claim_code_id = 31;
        claim_code_id = some 31;
        masked_code = some (text "X9**4T");
        outcome = already_used;
      }
      ∷ record {
        requested_claim_code_id = 32;
        claim_code_id = none;
        masked_code = none;
        outcome = code_not_found;
      }
      ∷ [];
  created_at = 502;
}

find_unique-bulk_update_status_example :
    memory.find_unique 31
      (bulk_update_status ⦃P = memory⦄ all_off admin_context (fresh_from 502) stocked).1.claim_codes
    ≡ (if is_member 31 all_off.ids
        then Option.map (after_switch false) (memory.find_unique 31 stocked.claim_codes)
        else memory.find_unique 31 stocked.claim_codes)
unfolding bulk_update_status bulk_update_status_tx update_claim_code_statuses switch_all classify
    distinct sort_by insert_by create_bulk_operation to_bulk_detail mask_claim_code stars
    record_audit write_audit valid_contract valid_snapshot operation_rules trim ◌>>=◌
find_unique-bulk_update_status_example =
    find_unique-bulk_update_status ⦃P = memory⦄ all_off admin_context (fresh_from 502) stocked
      all_off_reply 31 refl

bulk_update_status-items_example :
    (length
        (filter (λ (i : ClaimCodeBulkItem). i.requested_claim_code_id == 31) all_off_reply.items)
      ≡ (if is_member 31 all_off.ids then 1 else 0))
    × All (IsTold ⦃P = memory⦄ false stocked.claim_codes) all_off_reply.items
    × (count_in already_used all_off_reply
        ≡ length (
            filter
              (λ (i : ClaimCodeBulkItem). same_outcome already_used i.outcome)
              all_off_reply.items))
    × (all_off_reply.selected_count ≡ length all_off_reply.items)
unfolding bulk_update_status bulk_update_status_tx update_claim_code_statuses switch_all classify
    distinct sort_by insert_by create_bulk_operation to_bulk_detail mask_claim_code stars
    record_audit write_audit valid_contract valid_snapshot operation_rules trim ◌>>=◌
bulk_update_status-items_example =
    bulk_update_status-items ⦃P = memory⦄ all_off admin_context (fresh_from 502) stocked
      all_off_reply 31 already_used refl

-- The first draw is a code that is there already, the second one comes twice.
abbrev draws : ℕ → Text
draws n =
    if n == 0
    then text "K7QW2M"
    else if n == 1
    then text "B3B3B3"
    else if n == 2
    then text "B3B3B3"
    else text "A2A2A2"

abbrev ids_from : ℕ → Key
ids_from n = 600 + n

abbrev two_codes : GenerateDto
two_codes = record { quantity = 2; reason = text "Palestra da tarde" }

abbrev two_codes_reply : Generated
two_codes_reply = record {
  batch = record {
    id = 503;
    action_id = 10;
    created_by_admin_id = 99;
    requested_quantity = 2;
    created_quantity = 2;
    reason = text "Palestra da tarde";
    request_id = 5;
    created_at = 503;
  };
  counts = record { available = 2; disabled = 0; used = 0; blocked = 0 };
  action = (10, text "Abertura");
  quantity = 2;
  codes = text "A2A2A2" ∷ text "B3B3B3" ∷ [];
}

abbrev after_two : Db ⦃P = memory⦄
after_two =
    (generate_batch ⦃P = memory⦄ draws ids_from 10 two_codes admin_context (fresh_from 503)
      stocked).1

generate_batch-Made_example :
    Made ⦃P = memory⦄ 10 503 two_codes_reply.codes stocked.claim_codes after_two.claim_codes
    × (length two_codes_reply.codes ≡ two_codes.quantity)
    × (two_codes_reply.quantity ≡ two_codes.quantity)
    × (memory.find_unique 503 after_two.claim_code_batches ≡ some two_codes_reply.batch)
    × ((j : Key) (c : ClaimCode)
        → memory.find_unique j stocked.claim_codes ≡ some c
        → memory.find_unique j after_two.claim_codes ≡ some c)
unfolding generate_batch generate_batch_tx create_batch insert_batch_codes generate_rounds
    draw_candidates insert_claim_codes sort_by insert_by text_leb record_audit write_audit
    valid_contract valid_snapshot operation_rules trim ◌>>=◌
generate_batch-Made_example =
    generate_batch-Made ⦃P = memory⦄ draws ids_from 10 two_codes admin_context (fresh_from 503)
      stocked two_codes_reply refl
