-- ===== src/ClaimCodes/Settled.antt =====
-- `updateStatus`, done twice.

use semcomp2026_gameficacao.Prelude.{
  ℕ, ◌≡◌, ◌==◌, Bool, true, false, not, ◌&&◌, some, arith, Bool-cases, Option-cases, inl, inr,
  ==-refl,
}
use semcomp2026_gameficacao.Database.{Prisma}
use semcomp2026_gameficacao.Database.Schema.{Key, Fresh, ClaimCode}
use semcomp2026_gameficacao.Database.Failure.{ok}
use semcomp2026_gameficacao.Database.Tx.{Db, ◌>>=◌, pure}
use semcomp2026_gameficacao.Database.Inversion.{
  >>=-elim, reads-elim, or_throw-elim, reject_if-elim, pure-ok,
}
use semcomp2026_gameficacao.Audit.{record_audit}
use semcomp2026_gameficacao.Audit.Record.{record_audit-ok}
use semcomp2026_gameficacao.Audit.Contract.{OperationContext}
use semcomp2026_gameficacao.ClaimCodes.Repository.{
  HistoryRow, same_bool, switched, find_claim_code_by_id, update_claim_code_status,
}
use semcomp2026_gameficacao.ClaimCodes.Status.{
  UpdateStatusDto, History, to_history, status_audit, changed_or_not, switch_status,
  update_status_tx, update_status,
}

module _ ⦃P : Prisma⦄ where
  -- The code is there, not used, and has the wanted status.
  pub record Settled (id : Key) (is_active : Bool) (db : Db) (r : History) (db' : Db) : Type 0 where
    pub frame : db' ≡ record db { claim_codes = db'.claim_codes; audit_events = db'.audit_events }
    pub row : HistoryRow
    pub found : find_claim_code_by_id id db' ≡ some row
    pub unused : row.code.is_used ≡ false
    pub wanted : same_bool row.code.is_active is_active ≡ true
    pub reply : r ≡ to_history row
    pub kept :
        (j : Key) (c : ClaimCode)
        → P.find_unique j db.claim_codes ≡ some c
        → c.is_used ≡ true
        → P.find_unique j db'.claim_codes ≡ some c

  find_claim_code_by_id-code :
      (id : Key) (db : Db) (row : HistoryRow)
      → find_claim_code_by_id id db ≡ some row
      → P.find_unique id db.claim_codes ≡ some row.code
  find_claim_code_by_id-code id db row h = elim (Option-cases (P.find_unique id db.claim_codes)) [
    | inl missing ↦ absurd (ground (arith, missing))
    | inr (c, found) ↦ elim (Option-cases (P.find_unique c.action_id db.actions)) [
      | inl missing ↦ absurd (ground (arith, found, missing))
      | inr (a, given) ↦ ground (arith, found, given)
    ]
  ]

  -- What `update_claim_code_status` leaves where the row is found and not used.
  updated-code :
      (id : Key) (current : HistoryRow) (is_active : Bool) (db : Db) (count : ℕ) (db1 : Db)
      → find_claim_code_by_id id db ≡ some current
      → current.code.is_used ≡ false
      → update_claim_code_status id is_active current.code.is_active db ≡ ok (count, db1)
      → P.find_unique id db1.claim_codes ≡ some (switched is_active current.code)
  unfolding update_claim_code_status
  updated-code id current is_active db count db1 before unused run =
      let code = find_claim_code_by_id-code id db current before in
      let guard =
        λ (c : ClaimCode). not c.is_used && same_bool c.is_active current.code.is_active in
      let updated = P.find_unique-update_many id id guard (switched is_active) db.claim_codes in
      ground (arith, updated, code, ==-refl id)

  used-kept :
      (id : Key) (is_active previous : Bool) (db : Db) (count : ℕ) (db1 : Db) (j : Key)
      (c : ClaimCode)
      → update_claim_code_status id is_active previous db ≡ ok (count, db1)
      → P.find_unique j db.claim_codes ≡ some c
      → c.is_used ≡ true
      → P.find_unique j db1.claim_codes ≡ some c
  unfolding update_claim_code_status
  used-kept id is_active previous db count db1 j c run found is_used =
      let guard = λ (x : ClaimCode). not x.is_used && same_bool x.is_active previous in
      let updated = P.find_unique-update_many id j guard (switched is_active) db.claim_codes in
      ground (arith, updated, found, is_used, run)

  changed_or_not-ok :
      (count : ℕ) (id : Key) (current row : HistoryRow) (dto : UpdateStatusDto)
      (context : OperationContext) (fresh : Fresh) (db : Db) (r : History) (db' : Db)
      → same_bool row.code.is_active dto.is_active ≡ true
      → changed_or_not count id current row dto context fresh db ≡ ok (r, db')
      → (r ≡ to_history row) × (db' ≡ record db { audit_events = db'.audit_events })
  changed_or_not-ok count id current row dto context fresh db r db' wanted h =
      elim (Bool-cases (count == 0)) [
        | inl unchanged ↦
            let run : pure (to_history row) db ≡ ok (r, db') =
              ground (arith, unchanged, wanted, h) in
            let last = pure-ok _ db run in (last.0, ground (arith, last.1))
        | inr changed ↦
            let run : (record_audit fresh.audit_event_id fresh.now
                      (status_audit id current row dto context)
                    >>= λ _. pure (to_history row))
                  db
                ≡ ok (r, db') =
              ground (arith, changed, h) in
            >>=-elim _ _ _ run λ audit db1 run1 h1.
              let a = record_audit-ok _ _ _ db audit db1 run1 in
              let last = pure-ok _ db1 h1 in (last.0, ground (arith, last.1, a.state))
      ]

  switch_status-ok :
      (id : Key) (current : HistoryRow) (dto : UpdateStatusDto) (context : OperationContext)
      (fresh : Fresh) (db : Db) (r : History) (db' : Db)
      → find_claim_code_by_id id db ≡ some current
      → current.code.is_used ≡ false
      → switch_status id current dto context fresh db ≡ ok (r, db')
      → Settled id dto.is_active db r db'
  unfolding switch_status update_claim_code_status
  switch_status-ok id current dto context fresh db r db' before unused h =
      >>=-elim _ _ _ h λ count db1 run1 h1. reads-elim _ _ _ h1 λ h2.
        or_throw-elim _ _ _ _ h2 λ row found h3. reject_if-elim _ _ _ _ h3 λ still h4.
          let there = updated-code id current dto.is_active db count db1 before unused run1 in
          let code = find_claim_code_by_id-code id db1 row found in
          let wanted : same_bool row.code.is_active dto.is_active ≡ true =
            ground (arith, there, code) in
          let last = changed_or_not-ok count id current row dto context fresh db1 r db' wanted h4 in
          record {
            frame = ground (arith, last.1, run1);
            row = row;
            found = ground (arith, last.1, found);
            unused = still;
            wanted = wanted;
            reply = last.0;
            kept = λ j c there is_used. ground (
              arith,
              last.1,
              used-kept id dto.is_active current.code.is_active db count db1 j c run1 there is_used,
            );
          }

  pub update_status_tx-ok :
      (id : Key) (dto : UpdateStatusDto) (context : OperationContext) (fresh : Fresh) (db : Db)
      (r : History) (db' : Db)
      → update_status_tx id dto context fresh db ≡ ok (r, db')
      → Settled id dto.is_active db r db'
  unfolding update_status_tx
  update_status_tx-ok id dto context fresh db r db' h = reads-elim _ _ _ h λ h0.
      or_throw-elim _ _ _ _ h0 λ current found h1. reject_if-elim _ _ _ _ h1 λ unused h2.
        elim (Bool-cases (same_bool current.code.is_active dto.is_active)) [
          | inl wanted ↦
              let run : pure (to_history current) db ≡ ok (r, db') = ground (arith, wanted, h2) in
              let last = pure-ok _ db run in
              record {
                frame = ground (arith, last.1);
                row = current;
                found = ground (arith, last.1, found);
                unused = unused;
                wanted = wanted;
                reply = last.0;
                kept = λ j c there is_used. ground (arith, last.1, there);
              }
          | inr other ↦
              switch_status-ok id current dto context fresh db r db' found unused
                (ground (arith, other, h2))
        ]

  again :
      (id : Key) (dto : UpdateStatusDto) (context : OperationContext) (later : Fresh) (before : Db)
      (r : History) (db : Db)
      → Settled id dto.is_active before r db
      → update_status id dto context later db ≡ (ok r, db)
  unfolding update_status update_status_tx ◌>>=◌
  again id dto context later before r db s = ground (arith, s.found, s.unused, s.wanted, s.reply)

  -- If a change of a code's status returned, the same request sent again, by anyone and at any time,
  -- returns the same reply and changes nothing.
  pub update_status-update_status :
      (id : Key) (dto : UpdateStatusDto) (context other : OperationContext) (fresh later : Fresh)
      (db : Db) (r : History)
      → (update_status id dto context fresh db).0 ≡ ok r
      → update_status id dto other later (update_status id dto context fresh db).1
        ≡ (ok r, (update_status id dto context fresh db).1)
  unfolding update_status
  update_status-update_status id dto context other fresh later db r h =
      let db' = (update_status id dto context fresh db).1 in
      again id dto other later db r db'
        (update_status_tx-ok id dto context fresh db r db' (ground arith))
