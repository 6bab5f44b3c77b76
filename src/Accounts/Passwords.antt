-- ===== src/Accounts/Passwords.antt =====
-- auth/password-policy.ts, auth/participant-password-policy.ts, auth/password-hash.ts,
-- auth/admin-password.service.ts and auth/participant-password.service.ts.
use semcomp2026_gameficacao.Prelude.{
  ℕ, suc, ◌+◌, Bool, true, false, not, ◌&&◌, ◌||◌, Option, none, some, [], ◌∷◌, ltb, leb,
  if◌then◌else◌,
}
use semcomp2026_gameficacao.Text.{Text, text}
use semcomp2026_gameficacao.Database.Schema.{Key, Date, User, UserRole, participant, admin}
use semcomp2026_gameficacao.Accounts.Runtime.{Runtime}

abbrev is_high_surrogate : ℕ → Bool
is_high_surrogate c = leb 0xd800 c && leb c 0xdbff

abbrev is_low_surrogate : ℕ → Bool
is_low_surrogate c = leb 0xdc00 c && leb c 0xdfff

abbrev starts_pair : ℕ → Text → Bool
starts_pair c [] = false
starts_pair c (d ∷ s) = is_high_surrogate c && is_low_surrogate d

-- `Array.from(password).length`: a pair of surrogates is one character. The low half of a pair counts
-- nothing, so the count goes by the unit before.
character_count_after : Bool → Text → ℕ
character_count_after in_pair [] = 0
character_count_after in_pair (c ∷ s) =
    let rest = character_count_after (not in_pair && starts_pair c s) s in
    if in_pair then rest else suc rest

character_count : Text → ℕ
unfolding character_count_after
character_count password = character_count_after false password

-- `Buffer.byteLength(password, 'utf8')`: a half that has no other half becomes U+FFFD, three bytes.
utf8_bytes_after : Bool → Text → ℕ
utf8_bytes_after in_pair [] = 0
utf8_bytes_after in_pair (c ∷ s) =
    let rest = utf8_bytes_after (not in_pair && starts_pair c s) s in
    if in_pair
    then rest
    else if starts_pair c s
    then 4 + rest
    else if ltb c 0x80
    then 1 + rest
    else if ltb c 0x800
    then 2 + rest
    else 3 + rest

utf8_bytes : Text → ℕ
unfolding utf8_bytes_after
utf8_bytes password = utf8_bytes_after false password

abbrev pub participant_password_min_length : ℕ
participant_password_min_length = 8

abbrev pub admin_password_min_length : ℕ
admin_password_min_length = 12

abbrev pub password_max_length : ℕ
password_max_length = 64

abbrev pub password_max_utf8_bytes : ℕ
password_max_utf8_bytes = 72

-- Whether `validateParticipantPassword` returns.
unfoldable pub validate_participant_password : Text → Bool
unfolding character_count utf8_bytes character_count_after utf8_bytes_after
validate_participant_password password =
    let characters = character_count password in
    not (
      ltb characters participant_password_min_length
      || ltb password_max_length characters
      || ltb password_max_utf8_bytes (utf8_bytes password))

-- Whether `validateAdminPassword` returns, without a confirmation.
unfoldable pub validate_admin_password : Text → Bool
unfolding character_count utf8_bytes character_count_after utf8_bytes_after
validate_admin_password password =
    let characters = character_count password in
    not (
      ltb characters admin_password_min_length
      || ltb password_max_length characters
      || ltb password_max_utf8_bytes (utf8_bytes password))

abbrev pub dummy_password : Text
dummy_password = text "semcomp-dummy-password"

abbrev pub dummy_password_hash : Text
dummy_password_hash = text "$2b$12$N9qo8uLOickgx2ZMRZoMyeIjZAgcfl7p92ldGxad68LJZdL17lhWy"

abbrev pub same_role : UserRole → UserRole → Bool
same_role participant participant = true
same_role admin admin = true
same_role _ _ = false

-- `date > now` of a column that may be null
abbrev pub is_after : Option Date → Date → Bool
is_after none now = false
is_after (some date) now = ltb now date

-- `hasValidParticipantPasswordReset`
unfoldable pub has_valid_participant_password_reset : User → Date → Bool
has_valid_participant_password_reset user now =
    if user.password_reset_required then is_after user.password_reset_expires_at now else true

module _ ⦃X : Runtime⦄ where
  -- `ParticipantPasswordService.hash`, with no answer where it throws
  unfoldable pub hash_participant_password : (salt : Key) → Text → Option Text
  unfolding validate_participant_password
  hash_participant_password salt password =
      if validate_participant_password password then some (X.hash salt password) else none

  -- `AdminPasswordService.hash`
  unfoldable pub hash_admin_password : (salt : Key) → Text → Option Text
  unfolding validate_admin_password
  hash_admin_password salt password =
      if validate_admin_password password then some (X.hash salt password) else none

  -- The end of both `verify`s. Without a digest of the user's the source compares with the dummy
  -- digest, whose outcome `canAuthenticate && matches` discards.
  abbrev authenticates : (candidate : Text) → (digest : Option Text) → Bool
  authenticates candidate none = false && X.compare candidate dummy_password_hash
  authenticates candidate (some digest) = X.compare candidate digest

  -- `ParticipantPasswordService.verify`
  unfoldable pub verify_participant : Text → Option User → Date → Bool
  unfolding validate_participant_password has_valid_participant_password_reset
  verify_participant password none now = false
  verify_participant password (some user) now =
      authenticates (if validate_participant_password password then password else dummy_password) (
        if same_role user.role participant
          && user.is_active
          && has_valid_participant_password_reset user now
        then user.password_hash
        else none)

  -- `AdminPasswordService.verify`
  unfoldable pub verify_admin : Text → Option User → Bool
  unfolding validate_admin_password
  verify_admin password none = false
  verify_admin password (some user) =
      authenticates (if validate_admin_password password then password else dummy_password)
        (if same_role user.role admin && user.is_active then user.password_hash else none)

  -- `ParticipantPasswordService.matchesHash`, with no answer where it throws
  unfoldable pub matches_hash : Text → Text → Option Bool
  unfolding validate_participant_password
  matches_hash password digest =
      if validate_participant_password password then some (X.compare password digest) else none
