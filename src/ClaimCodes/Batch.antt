-- ===== src/ClaimCodes/Batch.antt =====
-- A batch that was made: how many codes it has, and what became of the others.
use semcomp2026_gameficacao.Prelude.{
  sym, ==-refl, ℕ, zero, suc, ◌+◌, ◌-◌, ◌*◌, ◌≡◌, ◌≤◌, true, Option, none, some, List, [], ◌∷◌,
  ◌++◌, length, ltb, arith, refl, ap, ◌∙◌, length-append, length-sort_by, Bool-cases, inl, inr,
  ==→eq,
}
use semcomp2026_gameficacao.Text.{Text, text_eq}
use semcomp2026_gameficacao.Database.{Prisma}
use semcomp2026_gameficacao.Database.Schema.{Key, Date, Fresh, ClaimCode}
use semcomp2026_gameficacao.Database.Failure.{ok}
use semcomp2026_gameficacao.Database.Tx.{Db}
use semcomp2026_gameficacao.Database.Inversion.{
  >>=-elim, reads-elim, or_throw-elim, reject_if-elim, pure-ok,
}
use semcomp2026_gameficacao.Audit.Record.{record_audit-ok}
use semcomp2026_gameficacao.Audit.Contract.{OperationContext}
use semcomp2026_gameficacao.ClaimCodes.Made.{Made, sorted-Made, generate_rounds-Made}
use semcomp2026_gameficacao.ClaimCodes.Generate.{
  GenerateDto, Generated, text_leb, add, draw_candidates, insert_claim_codes, is_free, new_code,
  generate_rounds, insert_batch_codes, create_batch, batch_row, generate_batch_tx, generate_batch,
  max_generation_rounds, max_generation_attempts_per_code,
}

length-add : (set : List Text) (code : Text) → length (add set code) ≤ length set + 1
length-add set code = ground (arith, length-append set (code ∷ []))

is_free-none :
    (code : Text) (same unique : Option ClaimCode) → is_free code same unique ≡ true → unique ≡ none
is_free-none code none none h = refl
is_free-none code none (some c) h = absurd (cc)
is_free-none code (some b) unique h = absurd (cc)

module _ ⦃P : Prisma⦄ (draw : ℕ → Text) (cuid : ℕ → Key) where
  length-draw_candidates :
      (attempts remaining next : ℕ) (set : List Text)
      → length set ≤ remaining
      → length (draw_candidates draw cuid attempts remaining next set).0 ≤ remaining
  unfolding draw_candidates
  length-draw_candidates zero remaining next set h = h
  length-draw_candidates (suc attempts) remaining next set h =
      elim (Bool-cases (ltb (length set) remaining)) [
        | inl less ↦
            let one : length (add set (draw next)) ≤ remaining =
              ground (arith, less, length-add set (draw next)) in
            let more =
              length-draw_candidates attempts remaining (next + 1) (add set (draw next)) one in
            rw less more
        | inr full ↦ rw full h
      ]

  -- What is inserted is no more than what was asked, and no code is lost.
  record Inserted (asked : ℕ) (before : P.Table ClaimCode) (codes : List Text)
      (after : P.Table ClaimCode) : Type 0 where
    pub size : length codes ≤ asked
    pub kept :
        (j : Key) (c : ClaimCode) → P.find_unique j before ≡ some c → P.find_unique j after ≡ some c

  insert_claim_codes-Inserted :
      (candidates : List Text) (action_id batch_id : Key) (now : Date) (n : ℕ)
      (codes : P.Table ClaimCode)
      → Inserted
          (length candidates)
          codes
          (insert_claim_codes draw cuid candidates action_id batch_id now n codes).0
          (insert_claim_codes draw cuid candidates action_id batch_id now n codes).1
  unfolding insert_claim_codes
  insert_claim_codes-Inserted [] action_id batch_id now n codes = record {
    size = omega arith;
    kept = λ j c h. h;
  }
  insert_claim_codes-Inserted (code ∷ rest) action_id batch_id now n codes =
      let row = new_code draw cuid n action_id batch_id now code in
      let same = P.find_first (λ (c : ClaimCode). text_eq code c.code) codes in
      let table = P.create row.id row codes in
      let skipped = insert_claim_codes-Inserted rest action_id batch_id now (n + 1) codes in
      let more = insert_claim_codes-Inserted rest action_id batch_id now (n + 1) table in
      let free = is_free code same (P.find_unique row.id codes) in
      elim (Bool-cases free) [
        | inl new ↦
            let vacant : P.find_unique row.id codes ≡ none = is_free-none code same _ new in
            rw new (record {
              size = omega (arith, more.size);
              kept = λ j c h. more.kept j c (
                  ground
                    (arith, P.find_unique-create row.id j row codes, h, vacant, ==→eq row.id j));
            })
        | inr taken ↦ rw taken (record { size = omega (arith, skipped.size); kept = skipped.kept })
      ]

  generate_rounds-Inserted :
      (rounds quantity : ℕ) (action_id batch_id : Key) (now : Date) (inserted : List Text)
      (next n : ℕ) (codes : P.Table ClaimCode)
      → length inserted ≤ quantity
      → Inserted quantity codes
          (generate_rounds draw cuid rounds quantity action_id batch_id now inserted next n codes).0
          (generate_rounds draw cuid rounds quantity action_id batch_id now inserted next n codes).1
  unfolding generate_rounds
  generate_rounds-Inserted zero quantity action_id batch_id now inserted next n codes h = record {
    size = h;
    kept = λ j c found. found;
  }
  generate_rounds-Inserted (suc rounds) quantity action_id batch_id now inserted next n codes h =
      let remaining = quantity - length inserted in
      let attempts = remaining * max_generation_attempts_per_code in
      let drawn = draw_candidates draw cuid attempts remaining next [] in
      let new = insert_claim_codes draw cuid drawn.0 action_id batch_id now n codes in
      let few = length-draw_candidates attempts remaining next [] (omega arith) in
      let one = insert_claim_codes-Inserted drawn.0 action_id batch_id now n codes in
      let fits : length (inserted ++ new.0) ≤ quantity =
        omega (arith, h, few, one.size, length-append inserted new.0) in
      let more =
        generate_rounds-Inserted rounds quantity action_id batch_id now (inserted ++ new.0) drawn.1
          new.2 new.1 fits in
      elim (Bool-cases (ltb (length inserted) quantity)) [
        | inl less ↦
            rw less
              (record { size = more.size; kept = λ j c found. more.kept j c (one.kept j c found) })
        | inr full ↦ rw full (record { size = h; kept = λ j c found. found })
      ]

  pub generate_batch_tx-ok :
      (action_id : Key) (dto : GenerateDto) (context : OperationContext) (fresh : Fresh) (db : Db)
      (r : Generated) (db' : Db)
      → generate_batch_tx draw cuid action_id dto context fresh db ≡ ok (r, db')
      → (r.quantity ≡ dto.quantity)
        × (length r.codes ≡ dto.quantity)
        × ((j : Key) (c : ClaimCode)
            → P.find_unique j db.claim_codes ≡ some c
            → P.find_unique j db'.claim_codes ≡ some c)
        × (db' ≡ record db {
          claim_codes = db'.claim_codes;
          claim_code_batches = db'.claim_code_batches;
          audit_events = db'.audit_events;
        })
        × Made action_id r.batch.id r.codes db.claim_codes db'.claim_codes
        × (P.find_unique r.batch.id db'.claim_code_batches ≡ some r.batch)
  unfolding generate_batch_tx insert_batch_codes create_batch
  generate_batch_tx-ok action_id dto context fresh db r db' h = reads-elim _ _ _ h λ h0.
      or_throw-elim _ _ _ _ h0 λ action found h1. >>=-elim _ _ _ h1 λ batch db1 run1 h2.
        >>=-elim _ _ _ h2 λ inserted db2 run2 h3. reject_if-elim _ _ _ _ h3 λ enough h4.
          >>=-elim _ _ _ h4 λ audit db3 run3 h5.
            let last = pure-ok _ db3 h5 in
            let a = record_audit-ok _ _ _ db2 audit db3 run3 in
            let before : db1.claim_codes ≡ db.claim_codes = ground (arith, run1) in
            let g =
              generate_rounds-Inserted max_generation_rounds dto.quantity action_id batch.id
                fresh.now [] 0 0 db1.claim_codes (omega arith) in
            let many : length inserted ≡ dto.quantity = ground (arith, run2, g.size, enough) in
            let after : db'.claim_codes ≡ db2.claim_codes = ground (arith, last.1, a.state) in
            let gm =
              generate_rounds-Made draw cuid max_generation_rounds dto.quantity action_id batch.id
                fresh.now [] 0 0 db1.claim_codes in
            let listed : inserted ≡ gm.new = ground (arith, run2, gm.all_codes) in
            let table : db'.claim_codes
                ≡ (generate_rounds draw cuid max_generation_rounds dto.quantity action_id batch.id
                    fresh.now [] 0 0 db1.claim_codes).1 =
              after ∙ ground (arith, run2) in
            let made : Made action_id batch.id inserted db.claim_codes db'.claim_codes =
              rw (listed, table, sym before) gm.made in
            let row : batch ≡ batch_row draw cuid dto action context fresh = ground (arith, run1) in
            let batches : db'.claim_code_batches ≡ P.create batch.id batch db.claim_code_batches =
              ground (arith, last.1, a.state, run2, run1) in
            (
              ground (arith, last.0, many),
              ap (λ (x : Generated). length x.codes) last.0
                  ∙ length-sort_by text_leb inserted
                  ∙ many,
              λ j c there. ground (arith, g.kept j c (ground (arith, before, there)), after, run2),
              ground (arith, last.1, a.state, run2, run1),
              rw (last.0) (sorted-Made text_leb action_id batch.id inserted _ _ made),
              ground (
                arith,
                batches,
                last.0,
                many,
                row,
                ==-refl batch.id,
                P.find_unique-create batch.id batch.id batch db.claim_code_batches,
              ),
            )

  -- If a batch was made, the table of codes has gained one unused, active row of this batch and
  -- activity for each code of the reply, of which there are as many as were asked for, and no other
  -- row; the batch is stored as the reply shows it; and no code that was there before is lost or
  -- changed.
  pub generate_batch-Made :
      (action_id : Key) (dto : GenerateDto) (context : OperationContext) (fresh : Fresh) (db : Db)
      (r : Generated)
      → (generate_batch draw cuid action_id dto context fresh db).0 ≡ ok r
      → let after = (generate_batch draw cuid action_id dto context fresh db).1 in
        Made action_id r.batch.id r.codes db.claim_codes after.claim_codes
        × (length r.codes ≡ dto.quantity)
        × (r.quantity ≡ dto.quantity)
        × (P.find_unique r.batch.id after.claim_code_batches ≡ some r.batch)
        × ((j : Key) (c : ClaimCode)
            → P.find_unique j db.claim_codes ≡ some c
            → P.find_unique j after.claim_codes ≡ some c)
  unfolding generate_batch
  generate_batch-Made action_id dto context fresh db r h =
      let db' = (generate_batch draw cuid action_id dto context fresh db).1 in
      let g = generate_batch_tx-ok action_id dto context fresh db r db' (ground arith) in
      (g.4, g.1, g.0, g.5, g.2)
