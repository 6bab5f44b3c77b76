-- ===== src/Accounts/Closed.antt =====
-- A session that is closed stays closed.
use semcomp2026_gameficacao.Prelude.{
  ℕ, ◌≤◌, ◌≡◌, ◌≢◌, refl, Bool, true, false, none, List, arith, ◌==◌, if◌then◌else◌, All, All-map,
  All-filter, not, any, ◌&&◌, ◌||◌,
}
use semcomp2026_gameficacao.Database.{Prisma}
use semcomp2026_gameficacao.Database.Schema.{
  Key, Date, User, UserSession, SessionEndReason, revoked, AdminActivation,
}
use semcomp2026_gameficacao.Database.Failure.{Failure, ok, err, unique_constraint}
use semcomp2026_gameficacao.Database.Tx.{Db, ◌>>=◌}
use semcomp2026_gameficacao.Text.{text_eq}
use semcomp2026_gameficacao.Accounts.Runtime.{Runtime}
use semcomp2026_gameficacao.Accounts.Sessions
use semcomp2026_gameficacao.Accounts.Sessions.{
  is_open, is_session_of, ended, seen, update_sessions, update_users, create_session,
  delete_sessions_ended_before, create_user, find_valid_session_with_user, heartbeat_session,
  end_session, revoke_open_sessions,
}
use semcomp2026_gameficacao.Accounts.Operators.Repository.{update_activations, create_activation}
use semcomp2026_gameficacao.Accounts.Auth.{heartbeat, end}
use semcomp2026_gameficacao.Accounts.Requests.{AccountRequest, run_accounts}
use semcomp2026_gameficacao.Accounts.Keeps.{Carries, Holds, Keeps}
use semcomp2026_gameficacao.Accounts.Stable.{Shuts, Stable}
use semcomp2026_gameficacao.Accounts.Run.{Opens, run_accounts-Keeps, any_user-Guarded}
use semcomp2026_gameficacao.Accounts.Rows.{
  All-update, find?-none, count-none, still_false, both_false, All-mapped,
}

abbrev Shut : (session_id user_id : Key) → Date → UserSession → Type 0
Shut session_id user_id now s = is_session_of session_id user_id s ≡ true → is_open now s ≡ false

module _ ⦃P : Prisma⦄ where
  abbrev pub IsClosed : (session_id user_id : Key) → Date → Db → Type 0
  IsClosed session_id user_id now db = All (Shut session_id user_id now) (P.find_many db.sessions)

module _ ⦃P : Prisma⦄ (j u : Key) (now : Date) where
  updated-IsClosed :
      (w : UserSession → Bool) (f : UserSession → UserSession)
      → Shuts f
      → Keeps (IsClosed j u now) (update_sessions w f)
  unfolding update_sessions Carries
  updated-IsClosed w f shuts db i = rw (P.find_many-update_where w f db.sessions) (
      All-update (Shut j u now) w f (P.find_many db.sessions)
        (λ s h same.
          let (id_eq, user_eq, opens) = shuts s in
          still_false (is_open now (f s)) (is_open now s) (opens now) (h (ground arith)))
        i)

  created-IsClosed :
      (e : Failure) (s : UserSession) → s.id ≢ j → Keeps (IsClosed j u now) (create_session e s)
  unfolding create_session Carries
  created-IsClosed e s other db i =
      elim (any (λ old. old.id == s.id) (P.find_many db.sessions))
        as (λ b.
          Holds (IsClosed j u now)
            (if b then err e else ok (tt, record db { sessions = P.create s.id s db.sessions }))) [
              | true ↦ tt
              | false ↦
                  rw (P.find_many-create s.id s db.sessions)
                    ((λ same. absurd (other (ground arith))), i)
            ]

  deleted-IsClosed :
      (cutoff : Date) → Keeps (IsClosed j u now) (delete_sessions_ended_before cutoff)
  unfolding delete_sessions_ended_before Carries
  deleted-IsClosed cutoff db i =
      rw (P.find_many-delete_where (Sessions.is_retired cutoff) db.sessions) (
        All-filter (Shut j u now) (λ s. not (Sessions.is_retired cutoff s))
          (P.find_many db.sessions) i)

  any_user-IsClosed :
      (w : User → Bool) (f : User → User) → Keeps (IsClosed j u now) (update_users w f)
  unfolding update_users Carries
  any_user-IsClosed w f db i = i

  user_created-IsClosed : (new : User) → Keeps (IsClosed j u now) (create_user new)
  unfolding create_user Carries
  user_created-IsClosed new db i =
      elim (any (Sessions.same_account new) (P.find_many db.users))
        as (λ b. Holds (IsClosed j u now) (
          if b
          then err unique_constraint
          else ok (tt, record db { users = P.create new.id new db.users }))) [
            | true ↦ tt
            | false ↦ i
          ]

  activation_created-IsClosed :
      (a : AdminActivation) → Keeps (IsClosed j u now) (create_activation a)
  unfolding create_activation Carries
  activation_created-IsClosed a db i =
      elim (any (λ old. old.id == a.id || text_eq old.code_hash a.code_hash)
          (P.find_many db.admin_activations))
        as (λ b. Holds (IsClosed j u now) (
          if b
          then err unique_constraint
          else ok (tt, record db { admin_activations = P.create a.id a db.admin_activations }))) [
            | true ↦ tt
            | false ↦ i
          ]

  pub IsClosed-Stable : Stable (IsClosed j u now) (λ k. k ≢ j)
  unfolding update_activations Carries
  IsClosed-Stable = record {
    audited = λ t db i. i;
    sessions_updated = updated-IsClosed;
    session_created = created-IsClosed;
    sessions_deleted = deleted-IsClosed;
    users_updated = λ w f _. any_user-IsClosed w f;
    user_created = user_created-IsClosed;
    activations_updated = λ w f _ db i. i;
    activation_created = activation_created-IsClosed;
  }

module _ ⦃P : Prisma⦄ ⦃X : Runtime⦄ where
  pub run_accounts-IsClosed :
      (j u : Key) (now : Date) (qs : List AccountRequest) (db : Db)
      → All (Opens (λ k. k ≢ j)) qs
      → IsClosed j u now db
      → IsClosed j u now (run_accounts qs db)
  run_accounts-IsClosed j u now qs db may i =
      run_accounts-Keeps (IsClosed j u now) (IsClosed-Stable j u now)
        (any_user-Guarded (IsClosed j u now) (IsClosed-Stable j u now) (any_user-IsClosed j u now))
        qs db may i

  later_closed :
      (now t : Date) (s : UserSession) → now ≤ t → is_open now s ≡ false → is_open t s ≡ false
  later_closed now t s le h = ground arith

  refused_rows :
      (j u : Key) (now t : Date) (db : Db)
      → now ≤ t
      → IsClosed j u now db
      → All (λ s. (is_session_of j u s && is_open t s) ≡ false) (P.find_many db.sessions)
  refused_rows j u now t db le = All-map (Shut j u now) _ (P.find_many db.sessions) λ s shut.
      both_false (is_session_of j u s) (is_open t s) λ mine. later_closed now t s le (shut mine)

  -- A closed session is refused at that time and later.
  pub IsClosed-invalid :
      (j u : Key) (now t : Date) (db : Db)
      → now ≤ t
      → IsClosed j u now db
      → find_valid_session_with_user j u t db ≡ none
  unfolding find_valid_session_with_user
  IsClosed-invalid j u now t db le i =
      let rows = P.find_many db.sessions in
      let valid =
        λ (s : UserSession). is_session_of j u s && is_open t s && Sessions.has_valid_user t db s in
      let refused_row : All (λ s. valid s ≡ false) rows =
        All-map (λ s. (is_session_of j u s && is_open t s) ≡ false) _ rows (λ s h. ground arith)
          (refused_rows j u now t db le i) in
      rw (P.find_first-eq_find? valid db.sessions) (rw (find?-none valid rows refused_row) refl)

  pub IsClosed-heartbeat :
      (j u : Key) (now t : Date) (db : Db)
      → now ≤ t
      → IsClosed j u now db
      → (heartbeat j u t db).0 ≡ ok false
  unfolding heartbeat heartbeat_session update_sessions ◌>>=◌
  IsClosed-heartbeat j u now t db le i =
      let rows = P.find_many db.sessions in
      let open_row = λ (s : UserSession). is_session_of j u s && is_open t s in
      rw (P.count-update_where open_row (seen t) db.sessions)
        (rw (count-none open_row rows (refused_rows j u now t db le i)) refl)

  ended_row :
      (j u : Key) (now : Date) (reason : SessionEndReason) (s : UserSession) (b : Bool)
      → (is_session_of j u s ≡ true → is_open now s ≡ true → b ≡ true)
      → Shut j u now (if b then ended now reason s else s)
  ended_row j u now reason s true k same = refl
  ended_row j u now reason s false k same = still_false (is_open now s) false (k same) refl

  pub end-IsClosed :
      (j u : Key) (now : Date) (reason : SessionEndReason) (db : Db)
      → IsClosed j u now (end j u now reason db).1
  unfolding end end_session update_sessions ◌>>=◌
  end-IsClosed j u now reason db =
      rw
        (P.find_many-update_where (λ s. is_session_of j u s && is_open now s) (ended now reason)
          db.sessions)
        (All-mapped (Shut j u now) _ (P.find_many db.sessions) λ s.
          ended_row j u now reason s (is_session_of j u s && is_open now s) λ h k. ground arith)

  -- Every session of the user is closed once the user's open sessions are revoked.
  pub revoke_open_sessions-IsClosed :
      (j u : Key) (now : Date) (db : Db) {count : ℕ} {db' : Db}
      → revoke_open_sessions u now db ≡ ok (count, db')
      → IsClosed j u now db'
  unfolding revoke_open_sessions update_sessions
  revoke_open_sessions-IsClosed j u now db {count} {db'} h =
      let state : db'.sessions
          ≡ (P.update_where (λ s. s.user_id == u && is_open now s) (ended now revoked)
              db.sessions).0 =
        ground arith in
      rw (state) (
        rw
          (P.find_many-update_where (λ s. s.user_id == u && is_open now s) (ended now revoked)
            db.sessions)
          (All-mapped (Shut j u now) _ (P.find_many db.sessions)
            λ s. ended_row j u now revoked s (s.user_id == u && is_open now s) λ h k. ground arith))

  -- Once ended, a session is refused by the guard and by the heartbeat at that time and later, after
  -- any requests that open no session under its id.
  pub end-run_accounts :
      (j u : Key) (now t : Date) (reason : SessionEndReason) (qs : List AccountRequest) (db : Db)
      → now ≤ t
      → All (Opens (λ k. k ≢ j)) qs
      → let later = run_accounts qs (end j u now reason db).1 in
        (find_valid_session_with_user j u t later ≡ none) × ((heartbeat j u t later).0 ≡ ok false)
  end-run_accounts j u now t reason qs db le may =
      let closed =
        run_accounts-IsClosed j u now qs (end j u now reason db).1 may
          (end-IsClosed j u now reason db) in
      (IsClosed-invalid j u now t _ le closed, IsClosed-heartbeat j u now t _ le closed)
