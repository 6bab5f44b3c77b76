-- ===== src/Accounts/Steps.antt =====
-- Whatever is stable under the statements of the account services holds after sign-up, sign-in,
-- heartbeats, ends, expiry, retention and a required change of password.
use semcomp2026_gameficacao.Prelude.{refl, Bool, true, false, none, arith, ◌==◌, if◌then◌else◌}
use semcomp2026_gameficacao.Database.{Prisma}
use semcomp2026_gameficacao.Database.Schema.{
  Key, Date, User, UserRole, participant, admin, SessionEndReason, revoked,
}
use semcomp2026_gameficacao.Database.Failure.{fault}
use semcomp2026_gameficacao.Database.Tx.{Db, ◌>>=◌, pure, reads, with_transaction}
use semcomp2026_gameficacao.Accounts.Runtime.{Runtime}
use semcomp2026_gameficacao.Accounts.Passwords.{hash_participant_password}
use semcomp2026_gameficacao.Accounts.Sessions
use semcomp2026_gameficacao.Accounts.Sessions.{
  is_open, ended, seen, expire_session, logged_in, update_sessions, update_users, create_session,
  SessionDraft, create_session_draft, RegisterParticipantInput, participant_of, session_of,
  revoke_open_sessions, register_participant, start_session, start_or_reject, heartbeat_session,
  end_session, expire_sessions, delete_retained,
}
use semcomp2026_gameficacao.Accounts.Auth.{
  RegisterDto, LoginDto, AdminLoginDto, SignIn, register_tx, register,
  start_authenticated_session_tx, login_tx, login, admin_login_tx, admin_login, heartbeat, end,
}
use semcomp2026_gameficacao.Accounts.PasswordChange.{PasswordChange, with_new_password}
use semcomp2026_gameficacao.Accounts.Keeps.{
  Keeps, >>=-Keeps, pure-Keeps, reads-Keeps, or_throw-Keeps, reject_if-Keeps,
  with_transaction-Keeps, rethrow-Keeps,
}
use semcomp2026_gameficacao.Accounts.Stable.{Shuts, Spares, Stable}

pub ended-Shuts : (now : Date) (reason : SessionEndReason) → Shuts (ended now reason)
ended-Shuts now reason s = (refl, refl, λ t h. absurd (cc))

pub seen-Shuts : (now : Date) → Shuts (seen now)
seen-Shuts now s = (refl, refl, λ t h. h)

pub expire_session-Shuts : Shuts expire_session
expire_session-Shuts s = (refl, refl, λ t h. absurd (cc))

pub logged_in-Spares : (at : Date) → Spares (logged_in at)
logged_in-Spares at u = (refl, λ h. h)

pub with_new_password-Spares : (change : PasswordChange) → Spares (with_new_password change)
with_new_password-Spares change u = (refl, λ h. ground arith)

module _ ⦃P : Prisma⦄ ⦃X : Runtime⦄ (I : Db → Type 0) {MayOpen : Key → Type 0}
    (stable : Stable I MayOpen) where
  pub revoke_open_sessions-Keeps : (id : Key) (now : Date) → Keeps I (revoke_open_sessions id now)
  unfolding revoke_open_sessions
  revoke_open_sessions-Keeps id now =
      stable.sessions_updated _ (ended now revoked) (ended-Shuts now revoked)

  register_participant-Keeps :
      (id : Key) (draft : SessionDraft) (input : RegisterParticipantInput)
      → MayOpen draft.id
      → Keeps I (register_participant id draft input)
  unfolding register_participant
  register_participant-Keeps id draft input may =
      >>=-Keeps I _ _ (stable.user_created _)
        λ _. >>=-Keeps I _ _ (stable.session_created _ _ may) λ _. pure-Keeps I _

  start_rest-Keeps :
      (b : Bool) (user_id : Key) (draft : SessionDraft)
      → MayOpen draft.id
      → Keeps I (
          if b
          then pure none
          else create_session fault (session_of user_id draft) >>= λ _.
              reads (Sessions.find_user (λ u. u.id == user_id)))
  start_rest-Keeps true user_id draft may = pure-Keeps I none
  start_rest-Keeps false user_id draft may =
      >>=-Keeps I _ _ (stable.session_created _ _ may) λ _. reads-Keeps I _

  start-Keeps :
      (user_id : Key) (role : UserRole) (draft : SessionDraft)
      → MayOpen draft.id
      → Keeps I (start_or_reject user_id role draft)
  unfolding start_or_reject start_session
  start-Keeps user_id role draft may =
      >>=-Keeps I _ _
        (>>=-Keeps I _ _
          (stable.users_updated _ (logged_in draft.started_at) (logged_in-Spares draft.started_at))
          λ count. start_rest-Keeps (count == 0) user_id draft may)
        λ user. or_throw-Keeps I user _

  started-Keeps :
      (user_id : Key) (role : UserRole) (s : SignIn)
      → MayOpen s.session_id
      → Keeps I (start_authenticated_session_tx user_id role s)
  unfolding start_authenticated_session_tx
  started-Keeps user_id role s may =
      >>=-Keeps I _ _ (start-Keeps user_id role (create_session_draft s.session_id s.now role) may)
        λ _. pure-Keeps I _

  pub register-Keeps :
      (dto : RegisterDto) (s : SignIn) (db : Db)
      → MayOpen s.session_id
      → I db
      → I (register dto s db).1
  unfolding register register_tx
  register-Keeps dto s db may i = rethrow-Keeps I _ (register_tx dto s) db i (
      >>=-Keeps I _ _ (or_throw-Keeps I (hash_participant_password s.salt dto.password) _)
        (λ password_hash.
          >>=-Keeps I _ _ (register_participant-Keeps s.user_id _ _ may) λ _. pure-Keeps I _))

  pub login-Keeps :
      (dto : LoginDto) (s : SignIn) (db : Db) → MayOpen s.session_id → I db → I (login dto s db).1
  unfolding login login_tx
  login-Keeps dto s db may i = rethrow-Keeps I _ (login_tx dto s) db i (
      >>=-Keeps I _ _ (reads-Keeps I _) (λ found. >>=-Keeps I _ _ (reject_if-Keeps I _ _) λ _.
        >>=-Keeps I _ _ (or_throw-Keeps I found _) λ (candidate : User).
          >>=-Keeps I _ _ (reject_if-Keeps I _ _)
            λ _. started-Keeps candidate.id participant s may))

  pub admin_login-Keeps :
      (dto : AdminLoginDto) (s : SignIn) (db : Db)
      → MayOpen s.session_id
      → I db
      → I (admin_login dto s db).1
  unfolding admin_login admin_login_tx
  admin_login-Keeps dto s db may i = rethrow-Keeps I _ (admin_login_tx dto s) db i (
      >>=-Keeps I _ _ (reads-Keeps I _) (λ found. >>=-Keeps I _ _ (reject_if-Keeps I _ _) λ _.
        >>=-Keeps I _ _ (or_throw-Keeps I found _)
          λ (user : User). started-Keeps user.id admin s may))

  pub heartbeat-Keeps :
      (session_id user_id : Key) (now : Date) (db : Db)
      → I db
      → I (heartbeat session_id user_id now db).1
  unfolding heartbeat heartbeat_session
  heartbeat-Keeps session_id user_id now db i =
      with_transaction-Keeps I (heartbeat_session session_id user_id now) db i (
        >>=-Keeps I _ _ (stable.sessions_updated _ (seen now) (seen-Shuts now)) λ _. pure-Keeps I _)

  pub end-Keeps :
      (session_id user_id : Key) (now : Date) (reason : SessionEndReason) (db : Db)
      → I db
      → I (end session_id user_id now reason db).1
  unfolding end end_session
  end-Keeps session_id user_id now reason db i =
      with_transaction-Keeps I (end_session session_id user_id now reason) db i (
        >>=-Keeps I _ _ (stable.sessions_updated _ (ended now reason) (ended-Shuts now reason))
          λ _. pure-Keeps I _)

  pub expire_sessions-Keeps :
      (now : Date) (db : Db) → I db → I (with_transaction (expire_sessions now) db).1
  unfolding expire_sessions
  expire_sessions-Keeps now db i =
      with_transaction-Keeps I (expire_sessions now) db i
        (stable.sessions_updated _ expire_session expire_session-Shuts)

  pub delete_retained-Keeps :
      (now : Date) (db : Db) → I db → I (with_transaction (delete_retained now) db).1
  unfolding delete_retained
  delete_retained-Keeps now db i =
      with_transaction-Keeps I (delete_retained now) db i (stable.sessions_deleted _)
