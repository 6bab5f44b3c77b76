-- ===== src/ClaimCodes/Made.antt =====
-- The rows that `generateBatch` puts into the table of codes.
use mathlib.Core.List.{append_assoc, append-nil}
use semcomp2026_gameficacao.Prelude.{
  ℕ, zero, suc, ◌+◌, ◌-◌, ◌*◌, ◌≡◌, Bool, true, false, some, List, [], ◌∷◌, ◌++◌, length, ltb,
  arith, refl, ap, sym, ◌∙◌, All, filter, length-append, length-sort_by, count-sort_by, sort_by,
  Bool-cases, inl, inr,
}
use semcomp2026_gameficacao.Text.{Text, text_eq}
use semcomp2026_gameficacao.Database.{Prisma}
use semcomp2026_gameficacao.Database.Schema.{Key, Date, ClaimCode}
use semcomp2026_gameficacao.ClaimCodes.Generate.{
  draw_candidates, insert_claim_codes, is_free, new_code, generate_rounds,
  max_generation_attempts_per_code,
}

All-append {κ} :
    {A : Type 0} (Q : A → Type κ) (xs ys : List A) → All Q xs → All Q ys → All Q (xs ++ ys)
All-append Q [] ys h k = k
All-append Q (x ∷ xs) ys h k = (h.0, All-append Q xs ys h.1 k)

count-append :
    {A : Type 0} (q : A → Bool) (xs ys : List A)
    → length (filter q (xs ++ ys)) ≡ length (filter q xs) + length (filter q ys)
count-append q [] ys = omega arith
count-append q (x ∷ xs) ys = ground (arith, count-append q xs ys)

module _ ⦃P : Prisma⦄ where
  -- An unused, active code of the batch.
  abbrev pub IsMade : (action_id batch_id : Key) → ClaimCode → Type 0
  IsMade action_id batch_id c =
      (c.batch_id ≡ some batch_id)
      × (c.action_id ≡ action_id)
      × (c.is_used ≡ false)
      × (c.is_active ≡ true)

  -- The rows that came into the table, one for each of the codes.
  pub record Made (action_id batch_id : Key) (codes : List Text) (before after : P.Table ClaimCode)
      : Type 0 where
    pub rows : List ClaimCode
    pub table : P.find_many after ≡ rows ++ P.find_many before
    pub each : All (IsMade action_id batch_id) rows
    pub size : length rows ≡ length codes
    pub same :
        (q : Text → Bool)
        → length (filter (λ (c : ClaimCode). q c.code) rows) ≡ length (filter q codes)

  nothing-Made : (action_id batch_id : Key) (t : P.Table ClaimCode) → Made action_id batch_id [] t t
  nothing-Made action_id batch_id t = record {
    rows = [];
    table = refl;
    each = tt;
    size = refl;
    same = λ q. refl;
  }

  one-Made :
      (action_id batch_id : Key) (row : ClaimCode) (codes : List Text)
      (before after : P.Table ClaimCode)
      → IsMade action_id batch_id row
      → Made action_id batch_id codes (P.create row.id row before) after
      → Made action_id batch_id (row.code ∷ codes) before after
  one-Made action_id batch_id row codes before after made m = record {
    rows = m.rows ++ (row ∷ []);
    table =
        m.table
        ∙ ap (λ xs. m.rows ++ xs) (P.find_many-create row.id row before)
        ∙ sym (append_assoc m.rows (row ∷ []) (P.find_many before));
    each = All-append (IsMade action_id batch_id) m.rows (row ∷ []) m.each (made, tt);
    size = omega (arith, m.size, length-append m.rows (row ∷ []));
    same =
        λ q. ground (arith, m.same q, count-append (λ (c : ClaimCode). q c.code) m.rows (row ∷ []));
  }

  both-Made :
      (action_id batch_id : Key) (first later : List Text) (t0 t1 t2 : P.Table ClaimCode)
      → Made action_id batch_id first t0 t1
      → Made action_id batch_id later t1 t2
      → Made action_id batch_id (first ++ later) t0 t2
  both-Made action_id batch_id first later t0 t1 t2 a b = record {
    rows = b.rows ++ a.rows;
    table =
        b.table
        ∙ ap (λ xs. b.rows ++ xs) a.table
        ∙ sym (append_assoc b.rows a.rows (P.find_many t0));
    each = All-append (IsMade action_id batch_id) b.rows a.rows b.each a.each;
    size = omega (arith, a.size, b.size, length-append b.rows a.rows, length-append first later);
    same = λ q. omega (
      arith,
      a.same q,
      b.same q,
      count-append (λ (c : ClaimCode). q c.code) b.rows a.rows,
      count-append q first later,
    );
  }

  -- The order of the codes does not matter.
  pub sorted-Made :
      (before : Text → Text → Bool) (action_id batch_id : Key) (codes : List Text)
      (t0 t1 : P.Table ClaimCode)
      → Made action_id batch_id codes t0 t1
      → Made action_id batch_id (sort_by before codes) t0 t1
  sorted-Made before action_id batch_id codes t0 t1 m = record {
    rows = m.rows;
    table = m.table;
    each = m.each;
    size = m.size ∙ sym (length-sort_by before codes);
    same = λ q. m.same q ∙ sym (count-sort_by before q codes);
  }

  -- What a run of the rounds adds to the codes that were inserted before.
  pub record Rounds (action_id batch_id : Key) (inserted all : List Text)
      (before after : P.Table ClaimCode) : Type 0 where
    pub new : List Text
    pub all_codes : all ≡ inserted ++ new
    pub made : Made action_id batch_id new before after

module _ ⦃P : Prisma⦄ (draw : ℕ → Text) (cuid : ℕ → Key) where
  insert_claim_codes-Made :
      (candidates : List Text) (action_id batch_id : Key) (now : Date) (n : ℕ)
      (codes : P.Table ClaimCode)
      → Made action_id batch_id
          (insert_claim_codes draw cuid candidates action_id batch_id now n codes).0
          codes
          (insert_claim_codes draw cuid candidates action_id batch_id now n codes).1
  unfolding insert_claim_codes
  insert_claim_codes-Made [] action_id batch_id now n codes = nothing-Made action_id batch_id codes
  insert_claim_codes-Made (code ∷ rest) action_id batch_id now n codes =
      let row = new_code draw cuid n action_id batch_id now code in
      let same = P.find_first (λ (c : ClaimCode). text_eq code c.code) codes in
      let table = P.create row.id row codes in
      let free = is_free code same (P.find_unique row.id codes) in
      elim (Bool-cases free) [
        | inl new ↦ rw new (
            one-Made action_id batch_id row _ codes _ (refl, refl, refl, refl)
              (insert_claim_codes-Made rest action_id batch_id now (n + 1) table))
        | inr taken ↦ rw taken (insert_claim_codes-Made rest action_id batch_id now (n + 1) codes)
      ]

  pub generate_rounds-Made :
      (rounds quantity : ℕ) (action_id batch_id : Key) (now : Date) (inserted : List Text)
      (next n : ℕ) (codes : P.Table ClaimCode)
      → Rounds action_id batch_id inserted
          (generate_rounds draw cuid rounds quantity action_id batch_id now inserted next n codes).0
          codes
          (generate_rounds draw cuid rounds quantity action_id batch_id now inserted next n codes).1
  unfolding generate_rounds
  generate_rounds-Made zero quantity action_id batch_id now inserted next n codes = record {
    new = [];
    all_codes = sym (append-nil inserted);
    made = nothing-Made action_id batch_id codes;
  }
  generate_rounds-Made (suc rounds) quantity action_id batch_id now inserted next n codes =
      let remaining = quantity - length inserted in
      let attempts = remaining * max_generation_attempts_per_code in
      let drawn = draw_candidates draw cuid attempts remaining next [] in
      let new = insert_claim_codes draw cuid drawn.0 action_id batch_id now n codes in
      let one = insert_claim_codes-Made drawn.0 action_id batch_id now n codes in
      let more =
        generate_rounds-Made rounds quantity action_id batch_id now (inserted ++ new.0) drawn.1
          new.2 new.1 in
      elim (Bool-cases (ltb (length inserted) quantity)) [
        | inl less ↦ rw less (record {
          new = new.0 ++ more.new;
          all_codes = more.all_codes ∙ append_assoc inserted new.0 more.new;
          made = both-Made action_id batch_id new.0 more.new codes new.1 _ one more.made;
        })
        | inr full ↦ rw full (record {
          new = [];
          all_codes = sym (append-nil inserted);
          made = nothing-Made action_id batch_id codes;
        })
      ]
