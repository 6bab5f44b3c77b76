-- ===== src/Accounts/Codes.antt =====
-- admin/admin-activation-code.ts. The bytes of `randomBytes`, one batch after another, are a list.
use semcomp2026_gameficacao.Prelude.{
  ℕ, zero, suc, ◌*◌, ◌/◌, ◌%◌, Bool, true, not, ◌&&◌, ◌||◌, Option, none, some, List, [], ◌∷◌,
  length, leb, any, filter, ◌==◌, if◌then◌else◌,
}
use semcomp2026_gameficacao.Text.{Text, text, is_space}
use semcomp2026_gameficacao.Accounts.Runtime.{Runtime}

abbrev pub admin_activation_ttl_ms : ℕ
admin_activation_ttl_ms = 60 * 60 * 1000

abbrev pub admin_activation_code_length : ℕ
admin_activation_code_length = 20

abbrev pub admin_activation_code_alphabet : Text
admin_activation_code_alphabet = text "ABCDEFGHJKLMNPQRSTUVWXYZ23456789"

abbrev pub rejection_limit : ℕ
rejection_limit =
    256 / length admin_activation_code_alphabet * length admin_activation_code_alphabet

-- `alphabet[i]`
unfoldable pub symbol_at : ℕ → Text → ℕ
symbol_at i [] = 0
symbol_at zero (c ∷ s) = c
symbol_at (suc i) (c ∷ s) = symbol_at i s

abbrev pub symbol_of : ℕ → ℕ
symbol_of byte =
    symbol_at (byte % length admin_activation_code_alphabet) admin_activation_code_alphabet

-- The loop of `createAdminActivationCode`, with the number of symbols that it still pushes.
unfoldable pub draw_symbols : ℕ → List ℕ → Text
draw_symbols zero bytes = []
draw_symbols (suc n) [] = []
draw_symbols (suc n) (byte ∷ bytes) =
    let taken = draw_symbols n bytes in
    let skipped = draw_symbols (suc n) bytes in
    if leb rejection_limit byte then skipped else symbol_of byte ∷ taken

-- `replace(/(.{5})(?=.)/g, '$1-')`, with the number of symbols before the group's last one
unfoldable pub with_dashes : ℕ → Text → Text
with_dashes n [] = []
with_dashes n (c ∷ []) = c ∷ []
with_dashes zero (c ∷ d ∷ s) = c ∷ b'-' ∷ with_dashes 4 (d ∷ s)
with_dashes (suc n) (c ∷ d ∷ s) = c ∷ with_dashes n (d ∷ s)

unfoldable pub create_admin_activation_code : List ℕ → Text
unfolding symbol_at draw_symbols with_dashes
create_admin_activation_code bytes = with_dashes 4 (draw_symbols admin_activation_code_length bytes)

-- `/[\s-]/`
abbrev pub is_filler : ℕ → Bool
is_filler c = is_space c || c == b'-'

unfoldable pub in_alphabet : ℕ → Bool
in_alphabet c = any (λ d. c == d) admin_activation_code_alphabet

unfoldable pub all_in_alphabet : Text → Bool
unfolding in_alphabet
all_in_alphabet [] = true
all_in_alphabet (c ∷ s) = in_alphabet c && all_in_alphabet s

-- The test of `normalizeAdminActivationCode`.
abbrev pub accept_compact : Text → Option Text
accept_compact compact =
    if all_in_alphabet compact && length compact == admin_activation_code_length
    then some compact
    else none

module _ ⦃X : Runtime⦄ where
  -- No answer where the source throws.
  unfoldable pub normalize_admin_activation_code : Text → Option Text
  unfolding all_in_alphabet
  normalize_admin_activation_code code =
      accept_compact (X.to_upper_case (filter (λ c. not (is_filler c)) code))

  abbrev digest : Option Text → Option Text
  digest none = none
  digest (some compact) = some (X.sha256 compact)

  unfoldable pub hash_admin_activation_code : Text → Option Text
  unfolding normalize_admin_activation_code
  hash_admin_activation_code code = digest (normalize_admin_activation_code code)

  -- The hash that an activation looks for: the code in its normal form is hashed.
  unfoldable pub hash_given_code : Option Text → Option Text
  unfolding hash_admin_activation_code
  hash_given_code none = none
  hash_given_code (some compact) = hash_admin_activation_code compact
