-- ===== src/EventCode/Generated.antt =====
-- `generateClaimCode` of common/event-code.ts against the format of a claim code.
use semcomp2026_gameficacao.Prelude.{
  ℕ, ◌≡◌, ◌<◌, Bool, true, ◌&&◌, [], ◌∷◌, arith, refl, length, ltb, suc, zero,
}
use semcomp2026_gameficacao.Text.{Text}
use semcomp2026_gameficacao.EventCode.{
  code_char, matches_row, claim_code_regex, claim_code_alphabet, char_at, generate_claim_code,
}

all_code_chars : Text → Bool
all_code_chars [] = true
all_code_chars (c ∷ s) = code_char c && all_code_chars s

char_at-code_char :
    (s : Text) (i : ℕ)
    → all_code_chars s ≡ true
    → ltb i (length s) ≡ true
    → (c : ℕ) × (char_at s i ≡ c ∷ []) × (code_char c ≡ true)
unfolding all_code_chars char_at
char_at-code_char [] i h below = absurd (ground arith)
char_at-code_char (c ∷ s) zero h below = (c, refl, ground arith)
char_at-code_char (c ∷ s) (suc i) h below = char_at-code_char s i (ground arith) (ground arith)

alphabet_char :
    (i : ℕ) → i < 32 → (c : ℕ) × (char_at claim_code_alphabet i ≡ c ∷ []) × (code_char c ≡ true)
unfolding all_code_chars code_char
alphabet_char i below = char_at-code_char claim_code_alphabet i refl (ground arith)

-- If the random numbers are below the alphabet's 32 characters, the generated code has the format of
-- a claim code.
pub generate_claim_code-claim_code_regex :
    (random : ℕ → ℕ)
    → ((i : ℕ) → random i < 32)
    → claim_code_regex (generate_claim_code random) ≡ true
unfolding generate_claim_code claim_code_regex matches_row
generate_claim_code-claim_code_regex random below =
    let (c0, at0, ok0) = alphabet_char (random 0) (below 0) in
    let (c1, at1, ok1) = alphabet_char (random 1) (below 1) in
    let (c2, at2, ok2) = alphabet_char (random 2) (below 2) in
    let (c3, at3, ok3) = alphabet_char (random 3) (below 3) in
    let (c4, at4, ok4) = alphabet_char (random 4) (below 4) in
    let (c5, at5, ok5) = alphabet_char (random 5) (below 5) in
    let (c6, at6, ok6) = alphabet_char (random 6) (below 6) in
    let (c7, at7, ok7) = alphabet_char (random 7) (below 7) in
    rw at0 (rw at1 (rw at2 (rw at3 (rw at4 (rw at5 (rw at6 (rw at7 (ground arith))))))))
