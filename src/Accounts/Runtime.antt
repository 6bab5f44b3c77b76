-- ===== src/Accounts/Runtime.antt =====
-- What the account services call and do not define: bcrypt, SHA-256 and the letter case of strings.
use semcomp2026_gameficacao.Prelude.{◌≡◌, Bool, true}
use semcomp2026_gameficacao.Text.{Text}
use semcomp2026_gameficacao.Database.Schema.{Key}

pub record Runtime : Type 1 where
  -- `hash` of bcrypt, under a salt
  pub hash : (salt : Key) → Text → Text
  -- `compare` of bcrypt
  pub compare : Text → Text → Bool
  -- `createHash('sha256')` of the UTF-8 text, in hexadecimal
  pub sha256 : Text → Text
  -- `String.prototype.toLowerCase`, `toUpperCase`
  pub to_lower_case : Text → Text
  pub to_upper_case : Text → Text
  pub compare-hash : (salt : Key) (password : Text) → compare password (hash salt password) ≡ true
