-- ===== src/Accounts/Auth.antt =====
-- auth/auth.service.ts: register, login, adminLogin, heartbeat, logout, changeRequiredPassword. The
-- signed token of jsonwebtoken and the random CSRF token are left out: an answer is the session's
-- id, which the token carries, and the user.
use semcomp2026_gameficacao.Prelude.{
  ℕ, Bool, true, false, not, ◌&&◌, Option, none, some, if◌then◌else◌,
}
use semcomp2026_gameficacao.Text.{Text, text_eq}
use semcomp2026_gameficacao.Database.{Prisma}
use semcomp2026_gameficacao.Database.Schema.{
  Key, Date, User, UserRole, participant, admin, SessionEndReason, logout, revoked,
}
use semcomp2026_gameficacao.Database.Failure.{
  Failure, Result, ok, err, bad_request, conflict, unauthorized, session_start_rejected,
  translate_conflict, Message, account_already_exists, invalid_participant_login,
  invalid_admin_login, invalid_participant_password, password_must_change,
  password_change_not_required, password_reset_invalid,
}
use semcomp2026_gameficacao.Database.Tx.{
  Db, Tx, ◌>>=◌, ◌>>◌, pure, reads, or_throw, reject_if, with_transaction, rethrow,
}
use semcomp2026_gameficacao.Accounts.Runtime.{Runtime}
use semcomp2026_gameficacao.Accounts.Passwords.{
  has_valid_participant_password_reset, hash_participant_password, verify_participant, verify_admin,
  matches_hash,
}
use semcomp2026_gameficacao.Accounts.Sessions.{
  create_session_draft, find_user, register_participant, start_or_reject, heartbeat_session,
  end_session,
}
use semcomp2026_gameficacao.Accounts.PasswordChange.{
  PasswordChange, complete_participant_password_change, find_participant_password_reset,
}

pub record RegisterDto : Type 0 where
  pub name : Text
  pub cpf : Text
  pub email : Text
  pub password : Text

pub record LoginDto : Type 0 where
  pub email : Text
  pub password : Text

pub record AdminLoginDto : Type 0 where
  pub cpf : Text
  pub email : Text
  pub password : Text

-- What one sign-in reads from the runtime: the random ids and salt, and the clock.
pub record SignIn : Type 0 where
  pub session_id : Key
  pub user_id : Key
  pub salt : Key
  pub now : Date

-- `issueTokens`, with the id that the token carries as `jti`
pub record IssuedTokens : Type 0 where
  pub jti : Key
  pub user : User

abbrev pub invalid_login : UserRole → Message
invalid_login admin = invalid_admin_login
invalid_login participant = invalid_participant_login

-- The `catch` of `startAuthenticatedSession`.
abbrev pub translate_start : UserRole → Failure → Failure
translate_start role session_start_rejected = unauthorized (invalid_login role)
translate_start role e = e

module _ ⦃P : Prisma⦄ ⦃X : Runtime⦄ where
  unfoldable pub register_tx : RegisterDto → SignIn → Tx IssuedTokens
  unfolding hash_participant_password register_participant
  register_tx dto sign_in = do
    password_hash ←
        or_throw (hash_participant_password sign_in.salt dto.password)
          (bad_request invalid_participant_password)
    user ←
        register_participant sign_in.user_id
          (create_session_draft sign_in.session_id sign_in.now participant)
          (record {
            name = dto.name;
            cpf = dto.cpf;
            email = dto.email;
            password_hash = password_hash;
          })
    pure (record { jti = sign_in.session_id; user = user })

  unfoldable pub register : RegisterDto → SignIn → Db → Result IssuedTokens × Db
  unfolding register_tx
  register dto sign_in db =
      rethrow (translate_conflict account_already_exists)
        (with_transaction (register_tx dto sign_in) db)

  -- `startAuthenticatedSession`
  unfoldable pub start_authenticated_session_tx : Key → UserRole → SignIn → Tx IssuedTokens
  unfolding start_or_reject
  start_authenticated_session_tx user_id role sign_in = do
    user ← start_or_reject user_id role (create_session_draft sign_in.session_id sign_in.now role)
    pure (record { jti = sign_in.session_id; user = user })

  unfoldable pub login_tx : LoginDto → SignIn → Tx IssuedTokens
  unfolding verify_participant has_valid_participant_password_reset start_authenticated_session_tx
  login_tx dto sign_in = do
    found ← reads (find_user (λ u. text_eq u.email dto.email))
    reject_if (not (verify_participant dto.password found sign_in.now))
        (unauthorized invalid_participant_login)
    candidate ← or_throw found (unauthorized invalid_participant_login)
    reject_if (not (has_valid_participant_password_reset candidate sign_in.now))
        (unauthorized invalid_participant_login)
    start_authenticated_session_tx candidate.id participant sign_in

  unfoldable pub login : LoginDto → SignIn → Db → Result IssuedTokens × Db
  unfolding login_tx
  login dto sign_in db =
      rethrow (translate_start participant) (with_transaction (login_tx dto sign_in) db)

  unfoldable pub admin_login_tx : AdminLoginDto → SignIn → Tx IssuedTokens
  unfolding verify_admin start_authenticated_session_tx
  admin_login_tx dto sign_in = do
    found ← reads (find_user (λ u. text_eq u.cpf dto.cpf && text_eq u.email dto.email))
    reject_if (not (verify_admin dto.password found)) (unauthorized invalid_admin_login)
    user ← or_throw found (unauthorized invalid_admin_login)
    start_authenticated_session_tx user.id admin sign_in

  unfoldable pub admin_login : AdminLoginDto → SignIn → Db → Result IssuedTokens × Db
  unfolding admin_login_tx
  admin_login dto sign_in db =
      rethrow (translate_start admin) (with_transaction (admin_login_tx dto sign_in) db)

  unfoldable pub heartbeat : (session_id user_id : Key) → Date → Db → Result Bool × Db
  unfolding heartbeat_session
  heartbeat session_id user_id now = with_transaction (heartbeat_session session_id user_id now)

  unfoldable pub end : (session_id user_id : Key) → Date → SessionEndReason → Db → Result Bool × Db
  unfolding end_session
  end session_id user_id now reason = with_transaction (end_session session_id user_id now reason)

  -- `AuthService.logout`
  abbrev pub log_out : (session_id user_id : Key) → Date → Db → Result Bool × Db
  log_out session_id user_id now = end session_id user_id now logout

  -- The session is ended, in a transaction of its own, before the error is thrown.
  abbrev pub revoke_and_throw : (session_id user_id : Key) → Date → Db → Result ℕ × Db
  revoke_and_throw session_id user_id now db =
      (err (unauthorized password_reset_invalid), (end session_id user_id now revoked db).1)

  abbrev pub changed_or_revoked :
      (session_id user_id : Key) → Date → Result (Option ℕ) × Db → Result ℕ × Db
  changed_or_revoked session_id user_id now (err e, db) = (err e, db)
  changed_or_revoked session_id user_id now (ok none, db) =
      revoke_and_throw session_id user_id now db
  changed_or_revoked session_id user_id now (ok (some sessions_revoked), db) =
      (ok sessions_revoked, db)

  abbrev pub change_to : Option Text → PasswordChange → (session_id : Key) → Db → Result ℕ × Db
  change_to none change session_id db = (err (bad_request invalid_participant_password), db)
  change_to (some new_password_hash) change session_id db =
      changed_or_revoked session_id change.participant_id change.changed_at (
        with_transaction
          (complete_participant_password_change
            (record change { new_password_hash = new_password_hash }))
          db)

  -- From the comparison with the temporary password on.
  abbrev pub unless_same :
      Option Bool → Text → PasswordChange → SignIn → (session_id : Key) → Db → Result ℕ × Db
  unless_same none new_password change sign_in session_id db =
      (err (bad_request invalid_participant_password), db)
  unless_same (some true) new_password change sign_in session_id db =
      (err (bad_request password_must_change), db)
  unless_same (some false) new_password change sign_in session_id db =
      change_to (hash_participant_password sign_in.salt new_password) change session_id db

  abbrev pub change_pending :
      Option Text → Bool → (participant_id session_id : Key) → Text → SignIn → Db → Result ℕ × Db
  change_pending (some digest) true participant_id session_id new_password sign_in db =
      unless_same (matches_hash new_password digest) new_password
        (record {
          participant_id = participant_id;
          expected_password_hash = digest;
          new_password_hash = digest;
          changed_at = sign_in.now;
        })
        sign_in session_id db
  change_pending _ _ participant_id session_id new_password sign_in db =
      revoke_and_throw session_id participant_id sign_in.now db

  abbrev pub change_found :
      Option User → (participant_id session_id : Key) → Text → SignIn → Db → Result ℕ × Db
  change_found none participant_id session_id new_password sign_in db =
      (err (conflict password_change_not_required), db)
  change_found (some pending) participant_id session_id new_password sign_in db =
      if pending.password_reset_required
      then change_pending pending.password_hash
          (has_valid_participant_password_reset pending sign_in.now) participant_id session_id
          new_password sign_in db
      else (err (conflict password_change_not_required), db)

  -- The number of revoked sessions is the answer.
  unfoldable pub change_required_password :
      (participant_id session_id : Key) → Text → SignIn → Db → Result ℕ × Db
  unfolding matches_hash has_valid_participant_password_reset hash_participant_password
      complete_participant_password_change end
  change_required_password participant_id session_id new_password sign_in db =
      change_found (find_participant_password_reset participant_id db) participant_id session_id
        new_password sign_in db
