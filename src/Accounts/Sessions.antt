-- ===== src/Accounts/Sessions.antt =====
-- presence/sessions.repository.ts and presence/sessions.service.ts, with the durations of
-- common/session-duration.ts. Each function takes the date that the source reads from the clock.
use semcomp2026_gameficacao.Prelude.{
  ℕ, ◌+◌, ◌-◌, ◌*◌, Bool, true, false, not, ◌&&◌, ◌||◌, Option, none, some, pos, leb, ltb, any,
  ◌==◌, if◌then◌else◌,
}
use semcomp2026_gameficacao.Text.{Text, text_eq}
use semcomp2026_gameficacao.Database.{Prisma}
use semcomp2026_gameficacao.Database.Schema.{
  Key, Date, User, UserRole, participant, admin, UserSession, SessionEndReason, revoked, expired,
}
use semcomp2026_gameficacao.Database.Failure.{
  Failure, ok, err, unique_constraint, session_start_rejected, fault,
}
use semcomp2026_gameficacao.Database.Tx.{Db, Tx, ◌>>=◌, ◌>>◌, pure, reads, or_throw}
use semcomp2026_gameficacao.Accounts.Passwords.{same_role, is_after}

abbrev pub session_retention_days : ℕ
session_retention_days = 30

-- `SESSION_DURATION_MS`
abbrev pub session_duration_ms : UserRole → ℕ
session_duration_ms participant = 8 * 60 * 60 * 1000
session_duration_ms admin = 4 * 60 * 60 * 1000

pub record SessionDraft : Type 0 where
  pub id : Key
  pub started_at : Date
  pub last_seen_at : Date
  pub expires_at : Date

-- `createSessionDraft`, with the id of `randomUUID`
abbrev pub create_session_draft : (id : Key) (now : Date) → UserRole → SessionDraft
create_session_draft id now role = record {
  id = id;
  started_at = now;
  last_seen_at = now;
  expires_at = now + session_duration_ms role;
}

pub record RegisterParticipantInput : Type 0 where
  pub name : Text
  pub cpf : Text
  pub email : Text
  pub password_hash : Text

-- `endedAt: null, expiresAt: { gt: now }`
abbrev pub is_open : Date → UserSession → Bool
is_open now s = elim s.ended_at [ none ↦ ltb now s.expires_at | some _ ↦ false ]

abbrev pub is_session_of : (session_id user_id : Key) → UserSession → Bool
is_session_of session_id user_id s = s.id == session_id && s.user_id == user_id

-- The alternatives on `passwordResetRequired` and `passwordResetExpiresAt`.
abbrev pub reset_allows : Date → User → Bool
reset_allows now u =
    not u.password_reset_required
    || (u.password_reset_required && is_after u.password_reset_expires_at now)

-- The condition of `startSession` on the user.
abbrev pub may_start : Key → UserRole → Date → User → Bool
may_start user_id role at u =
    u.id == user_id
    && same_role u.role role
    && u.is_active
    && (same_role role admin || reset_allows at u)

-- The condition of `findValidSessionWithUser` on the session's user.
abbrev pub may_continue : Date → User → Bool
may_continue now u =
    u.is_active && (same_role u.role admin || (same_role u.role participant && reset_allows now u))

abbrev pub session_of : Key → SessionDraft → UserSession
session_of user_id draft = record {
  id = draft.id;
  user_id = user_id;
  started_at = draft.started_at;
  last_seen_at = draft.last_seen_at;
  expires_at = draft.expires_at;
  ended_at = none;
  end_reason = none;
}

-- The `data` of the updates that end a session.
abbrev pub ended : Date → SessionEndReason → UserSession → UserSession
ended now reason s = record s { ended_at = some now; end_reason = some reason }

abbrev pub expire_session : UserSession → UserSession
expire_session s = record s { ended_at = some s.expires_at; end_reason = some expired }

abbrev pub logged_in : Date → User → User
logged_in at u = record u { last_login_at = some at }

abbrev pub seen : Date → UserSession → UserSession
seen now s = record s { last_seen_at = now }

-- `endedAt: null, expiresAt <= now`, as `expireSessions` selects.
abbrev pub is_overdue : Date → UserSession → Bool
is_overdue now s = elim s.ended_at [ none ↦ leb s.expires_at now | some _ ↦ false ]

-- The condition of `deleteSessionsEndedBefore`.
abbrev pub is_retired : (cutoff : Date) → UserSession → Bool
is_retired cutoff s = elim s.ended_at [ none ↦ ltb s.expires_at cutoff | some t ↦ ltb t cutoff ]

-- A new row of `User` with the defaults of the schema.
abbrev pub participant_of : (id : Key) → SessionDraft → RegisterParticipantInput → User
participant_of id draft input = record {
  id = id;
  name = input.name;
  role = participant;
  points = pos 0;
  xp = pos 0;
  level = 1;
  is_active = true;
  cpf = input.cpf;
  email = input.email;
  last_login_at = some draft.started_at;
  password_hash = some input.password_hash;
  password_changed_at = none;
  admin_profile = none;
  password_reset_required = false;
  password_reset_expires_at = none;
  created_at = draft.started_at;
}

-- The primary key and the unique columns `cpf` and `email`.
abbrev pub same_account : User → User → Bool
same_account u v = u.id == v.id || text_eq u.cpf v.cpf || text_eq u.email v.email

module _ ⦃P : Prisma⦄ where
  -- `userSession.updateMany({ where, data })`
  unfoldable pub update_sessions : (UserSession → Bool) → (UserSession → UserSession) → Tx ℕ
  update_sessions where_session data_of db =
      let (t, count) = P.update_where where_session data_of db.sessions in
      ok (count, record db { sessions = t })

  -- `user.updateMany({ where, data })`, and `user.update` where the condition is on the id
  unfoldable pub update_users : (User → Bool) → (User → User) → Tx ℕ
  update_users where_user data_of db =
      let (t, count) = P.update_where where_user data_of db.users in
      ok (count, record db { users = t })

  -- `userSession.create`, with the error that the caller makes of P2002
  unfoldable pub create_session : Failure → UserSession → Tx (Unit {0})
  create_session e s db =
      if any (λ old. old.id == s.id) (P.find_many db.sessions)
      then err e
      else ok (tt, record db { sessions = P.create s.id s db.sessions })

  -- `user.create`
  unfoldable pub create_user : User → Tx (Unit {0})
  create_user u db =
      if any (same_account u) (P.find_many db.users)
      then err unique_constraint
      else ok (tt, record db { users = P.create u.id u db.users })

  abbrev pub find_user : (User → Bool) → Db → Option User
  find_user where_user db = P.find_first where_user db.users

  unfoldable pub revoke_open_sessions : Key → Date → Tx ℕ
  unfolding update_sessions
  revoke_open_sessions id now =
      update_sessions (λ s. s.user_id == id && is_open now s) (ended now revoked)

  -- `isActive ? 0 : await repository.revokeOpenSessions(id, now)`
  abbrev pub revoke_if_off : Bool → Key → Date → Tx ℕ
  revoke_if_off true id now = pure 0
  revoke_if_off false id now = revoke_open_sessions id now

  -- `registerParticipant`; a session with the draft's id would be the same P2002.
  unfoldable pub register_participant :
      (id : Key) → SessionDraft → RegisterParticipantInput → Tx User
  unfolding create_user create_session
  register_participant id draft input = do
    create_user (participant_of id draft input)
    create_session unique_constraint (session_of id draft)
    pure (participant_of id draft input)

  unfoldable pub start_session : Key → UserRole → SessionDraft → Tx (Option User)
  unfolding update_users create_session
  start_session user_id role draft = do
    count ← update_users (may_start user_id role draft.started_at) (logged_in draft.started_at)
    if count == 0
        then pure none
        else create_session fault (session_of user_id draft)
          >> reads (find_user (λ u. u.id == user_id))

  -- `SessionsService.start`
  unfoldable pub start_or_reject : Key → UserRole → SessionDraft → Tx User
  unfolding start_session
  start_or_reject user_id role draft = do
    user ← start_session user_id role draft
    or_throw user session_start_rejected

  abbrev continuing_user : Date → Option UserSession → Db → Option User
  continuing_user now none db = none
  continuing_user now (some s) db = find_user (λ u. u.id == s.user_id && may_continue now u) db

  -- The join of `findValidSessionWithUser`: a session has one user, under its `userId`.
  abbrev pub has_valid_user : Date → Db → UserSession → Bool
  has_valid_user now db s =
      any (λ u. u.id == s.user_id && may_continue now u) (P.find_many db.users)

  unfoldable pub find_valid_session_with_user : (session_id user_id : Key) → Date → Db → Option User
  find_valid_session_with_user session_id user_id now db =
      continuing_user now
        (P.find_first
          (λ s. is_session_of session_id user_id s && is_open now s && has_valid_user now db s)
          db.sessions)
        db

  -- The answer of `heartbeatSession` and `endSession`.
  unfoldable pub heartbeat_session : (session_id user_id : Key) → Date → Tx Bool
  unfolding update_sessions
  heartbeat_session session_id user_id now = do
    count ← update_sessions (λ s. is_session_of session_id user_id s && is_open now s) (seen now)
    pure (ltb 0 count)

  unfoldable pub end_session : (session_id user_id : Key) → Date → SessionEndReason → Tx Bool
  unfolding update_sessions
  end_session session_id user_id now reason = do
    count ←
        update_sessions (λ s. is_session_of session_id user_id s && is_open now s)
          (ended now reason)
    pure (ltb 0 count)

  unfoldable pub expire_sessions : Date → Tx ℕ
  unfolding update_sessions
  expire_sessions now = update_sessions (is_overdue now) expire_session

  unfoldable pub delete_sessions_ended_before : Date → Tx (Unit {0})
  delete_sessions_ended_before cutoff db =
      ok (tt, record db { sessions = P.delete_where (is_retired cutoff) db.sessions })

  -- `SessionsService.deleteRetained`; dates are past the retention, so the subtraction is exact.
  unfoldable pub delete_retained : Date → Tx (Unit {0})
  unfolding delete_sessions_ended_before
  delete_retained now =
      delete_sessions_ended_before (now - session_retention_days * 24 * 60 * 60 * 1000)
