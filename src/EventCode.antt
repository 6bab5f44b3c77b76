-- ===== src/EventCode.antt =====
-- apps/api/src/common/event-code.ts and claim-code-mask.ts: the codes that participants type, the
-- format kept for single-use claim codes, and the mask under which a code is shown to operators.
pub mod Generated
pub mod Mask
mod Tests
use semcomp2026_gameficacao.Prelude.{
  ℕ, zero, suc, ◌+◌, ◌-◌, ◌≡◌, Bool, true, false, not, ◌&&◌, ◌||◌, Option, none, some, List, [],
  ◌∷◌, ◌++◌, length, take, leb, ltb, ◌==◌, if◌then◌else◌,
}
use semcomp2026_gameficacao.Text.{Text, text, trim, to_upper_case}

-- `[A-HJ-NP-Z2-9]`
pub code_char : ℕ → Bool
code_char c =
    (leb b'A' c && leb c b'H')
    || (leb b'J' c && leb c b'N')
    || (leb b'P' c && leb c b'Z')
    || (leb b'2' c && leb c b'9')

-- `[A-Z0-9-]`
pub reusable_char : ℕ → Bool
reusable_char c = (leb b'A' c && leb c b'Z') || (leb b'0' c && leb c b'9') || c == b'-'

-- A regular expression that is a row of character classes, between `^` and `$`.
pub matches_row : List (ℕ → Bool) → Text → Bool
matches_row [] [] = true
matches_row [] (c ∷ s) = false
matches_row (p ∷ ps) [] = false
matches_row (p ∷ ps) (c ∷ s) = p c && matches_row ps s

abbrev dash : ℕ → Bool
dash c = c == b'-'

-- `CLAIM_CODE_REGEX`
pub claim_code_regex : Text → Bool
unfolding matches_row code_char
claim_code_regex = matches_row (
    code_char ∷ code_char ∷ code_char ∷ code_char ∷ dash ∷ code_char ∷ code_char ∷ code_char
    ∷ code_char ∷ [])

pub all_reusable : Text → Bool
all_reusable [] = true
all_reusable (c ∷ s) = reusable_char c && all_reusable s

-- `REUSABLE_EVENT_CODE_REGEX`
pub reusable_event_code_regex : Text → Bool
unfolding claim_code_regex all_reusable reusable_char
reusable_event_code_regex s = not (claim_code_regex s) && (ltb 0 (length s) && all_reusable s)

abbrev non_empty : Text → Option Text
non_empty [] = none
non_empty (c ∷ s) = some (c ∷ s)

unfoldable pub normalize_event_code : Option Text → Option Text
unfolding trim to_upper_case
normalize_event_code none = none
normalize_event_code (some value) = non_empty (to_upper_case (trim value))

abbrev passes : (Text → Bool) → Option Text → Bool
passes p none = false
passes p (some s) = p s

unfoldable pub is_claim_code : Option Text → Bool
unfolding normalize_event_code claim_code_regex
is_claim_code value = passes claim_code_regex (normalize_event_code value)

abbrev pub claim_code_alphabet : Text
claim_code_alphabet = text "ABCDEFGHJKLMNPQRSTUVWXYZ23456789"

-- `charAt`: the empty text outside of the range.
pub char_at : Text → ℕ → Text
char_at [] i = []
char_at (c ∷ s) zero = c ∷ []
char_at (c ∷ s) (suc i) = char_at s i

-- `randomInt` gives the eight numbers; `slice` and `join` follow.
pub generate_claim_code : (random : ℕ → ℕ) → Text
unfolding char_at
generate_claim_code random =
    let pick = λ (i : ℕ). char_at claim_code_alphabet (random i) in
    ((pick 0 ++ (pick 1 ++ (pick 2 ++ pick 3))) ++ text "-")
    ++ (pick 4 ++ (pick 5 ++ (pick 6 ++ pick 7)))

unfoldable pub stars : ℕ → Text
stars zero = []
stars (suc n) = b'*' ∷ stars n

abbrev last_two : Text → Text
last_two (a ∷ b ∷ c ∷ s) = last_two (b ∷ c ∷ s)
last_two s = s

unfoldable pub mask_claim_code : Text → Text
unfolding stars
mask_claim_code code =
    if leb (length code) 4
    then stars (length code)
    else (take 2 code ++ stars (length code - 4)) ++ last_two code

pub all_stars : Text → Bool
all_stars [] = true
all_stars (c ∷ s) = c == b'*' && all_stars s

-- `^\*{1,4}$`
pub short_mask : Text → Bool
unfolding all_stars
short_mask s = ltb 0 (length s) && leb (length s) 4 && all_stars s

-- `[^*]{2}$`
pub two_others : Text → Bool
two_others (a ∷ b ∷ []) = not (a == b'*') && not (b == b'*')
two_others s = false

-- `\*+[^*]{2}$`
pub stars_then_others : Text → Bool
unfolding two_others
stars_then_others [] = false
stars_then_others (c ∷ s) = c == b'*' && (two_others s || stars_then_others s)

-- `^[^*]{2}\*+[^*]{2}$`
pub long_mask : Text → Bool
unfolding stars_then_others
long_mask (a ∷ b ∷ s) = not (a == b'*') && (not (b == b'*') && stars_then_others s)
long_mask s = false

unfoldable pub is_canonical_claim_code_mask : Text → Bool
unfolding short_mask long_mask
is_canonical_claim_code_mask s = leb (length s) 100 && (short_mask s || long_mask s)
