-- ===== src/EventCode/Mask.antt =====
-- `maskClaimCode` and `isCanonicalClaimCodeMask` of common/claim-code-mask.ts together.
use semcomp2026_gameficacao.Prelude.{
  ℕ, ◌-◌, ◌≡◌, ◌≤◌, Bool, true, false, not, ◌&&◌, [], ◌∷◌, ◌++◌, length, length-append, leb, ltb,
  ◌==◌, arith, refl, suc, zero, Bool-cases, inl, inr,
}
use semcomp2026_gameficacao.Text.{Text}
use semcomp2026_gameficacao.EventCode.{
  stars, last_two, mask_claim_code, all_stars, short_mask, two_others, stars_then_others, long_mask,
  is_canonical_claim_code_mask,
}

length-stars : (n : ℕ) → length (stars n) ≡ n
unfolding stars
length-stars zero = refl
length-stars (suc n) = omega (arith, length-stars n)

all_stars-stars : (n : ℕ) → all_stars (stars n) ≡ true
unfolding stars all_stars
all_stars-stars zero = refl
all_stars-stars (suc n) = ground (arith, all_stars-stars n)

length-last_two : (a b : ℕ) (s : Text) → length (last_two (a ∷ b ∷ s)) ≡ 2
length-last_two a b [] = refl
length-last_two a b (c ∷ s) = length-last_two b c s

-- The mask of a code has the length of the code.
length-mask_claim_code : (code : Text) → length (mask_claim_code code) ≡ length code
unfolding mask_claim_code
length-mask_claim_code [] = ground (arith, length-stars 0)
length-mask_claim_code (a ∷ []) = ground (arith, length-stars 1)
length-mask_claim_code (a ∷ b ∷ s) =
    let n = length (a ∷ b ∷ s) in
    ground (
      arith,
      length-stars n,
      length-stars (n - 4),
      length-append ((a ∷ b ∷ []) ++ stars (n - 4)) (last_two (a ∷ b ∷ s)),
      length-append (a ∷ b ∷ []) (stars (n - 4)),
      length-last_two a b s,
    )

-- No star in the text.
abbrev pub no_star : Text → Bool
no_star [] = true
no_star (c ∷ s) = not (c == b'*') && no_star s

two_others-last_two :
    (a b : ℕ) (s : Text) → no_star (a ∷ b ∷ s) ≡ true → two_others (last_two (a ∷ b ∷ s)) ≡ true
unfolding two_others
two_others-last_two a b [] h = ground arith
two_others-last_two a b (c ∷ s) h = two_others-last_two b c s (ground arith)

stars_then_others-stars :
    (n : ℕ) (t : Text) → two_others t ≡ true → stars_then_others (stars (suc n) ++ t) ≡ true
unfolding stars stars_then_others
stars_then_others-stars zero t h = ground arith
stars_then_others-stars (suc n) t h = ground (arith, stars_then_others-stars n t h)

long_mask-mask :
    (a b : ℕ) (s : Text)
    → no_star (a ∷ b ∷ s) ≡ true
    → ltb 2 (length s) ≡ true
    → long_mask ((a ∷ b ∷ stars (length s - 2)) ++ last_two (a ∷ b ∷ s)) ≡ true
unfolding long_mask
long_mask-mask a b s h long =
    let n = length s - 3 in
    let others = two_others-last_two a b s h in
    let masked = stars_then_others-stars n (last_two (a ∷ b ∷ s)) others in
    let size : length s - 2 ≡ suc n = ground (arith, long) in rw size (ground (arith, masked))

masked_short :
    (code : Text)
    → leb (length code) 4 ≡ true
    → 1 ≤ length code
    → short_mask (mask_claim_code code) ≡ true
unfolding mask_claim_code short_mask
masked_short code small some_char =
    let n = length code in rw small (ground (arith, all_stars-stars n, length-stars n))

masked_long :
    (code : Text)
    → no_star code ≡ true
    → leb (length code) 4 ≡ false
    → long_mask (mask_claim_code code) ≡ true
unfolding mask_claim_code
masked_long [] clean big = ground arith
masked_long (a ∷ []) clean big = ground arith
masked_long (a ∷ b ∷ s) clean big =
    let size : length (a ∷ b ∷ s) - 4 ≡ length s - 2 = ground arith in
    rw big (rw size (long_mask-mask a b s clean (ground arith)))

-- The mask of a code of 1 to 100 characters that has no star is canonical.
pub mask_claim_code-canonical :
    (code : Text)
    → no_star code ≡ true
    → 1 ≤ length code
    → length code ≤ 100
    → is_canonical_claim_code_mask (mask_claim_code code) ≡ true
unfolding is_canonical_claim_code_mask
mask_claim_code-canonical code clean some_char short =
    let size = length-mask_claim_code code in
    elim (Bool-cases (leb (length code) 4)) [
      | inl small ↦ ground (arith, size, masked_short code small some_char)
      | inr big ↦ ground (arith, size, masked_long code clean big)
    ]
