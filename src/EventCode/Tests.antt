-- ===== src/EventCode/Tests.antt =====
-- Runs of the functions on codes.
use semcomp2026_gameficacao.Prelude.{◌≡◌, ◌-◌, refl, true, false, some, arith}
use semcomp2026_gameficacao.Text.{text}
use semcomp2026_gameficacao.EventCode.{
  normalize_event_code, is_claim_code, generate_claim_code, mask_claim_code,
  is_canonical_claim_code_mask, reusable_event_code_regex, claim_code_regex,
}
use semcomp2026_gameficacao.EventCode.Mask.{mask_claim_code-canonical}
use semcomp2026_gameficacao.EventCode.Generated.{generate_claim_code-claim_code_regex}

normalized : normalize_event_code (some (text "  dia-1 ")) ≡ some (text "DIA-1")
unfolding normalize_event_code
normalized = refl

claim : is_claim_code (some (text " abcd-2345")) ≡ true
unfolding is_claim_code
claim = refl

no_claim : is_claim_code (some (text "ABCI-2345")) ≡ false
unfolding is_claim_code
no_claim = refl

generated : generate_claim_code (λ i. i) ≡ text "ABCD-EFGH"
unfolding generate_claim_code
generated = refl

masked : mask_claim_code (text "ABCD-EFGH") ≡ text "AB*****GH"
unfolding mask_claim_code
masked = refl

canonical : is_canonical_claim_code_mask (text "AB*****GH") ≡ true
unfolding is_canonical_claim_code_mask
canonical = refl

reusable : reusable_event_code_regex (text "DIA-1") ≡ true
unfolding reusable_event_code_regex
reusable = refl

mask_claim_code-canonical_example :
    is_canonical_claim_code_mask (mask_claim_code (text "ABCD-EFGH")) ≡ true
mask_claim_code-canonical_example =
    mask_claim_code-canonical (text "ABCD-EFGH") refl (omega arith) (omega arith)

generate_claim_code-claim_code_regex_example :
    claim_code_regex (generate_claim_code (λ i. 31 - i)) ≡ true
generate_claim_code-claim_code_regex_example =
    generate_claim_code-claim_code_regex (λ i. 31 - i) λ i. omega arith
