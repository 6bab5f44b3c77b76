-- ===== src/Accounts/SignedIn.antt =====
-- auth/auth.service.ts: what a login that returned leaves for the check of its session.
use semcomp2026_gameficacao.Prelude.{
  ℕ, ap, ==→eq, ◌≡◌, refl, sym, ◌∙◌, Bool, true, false, Option, none, some, List, [], ◌∷◌, map,
  arith, ◌==◌, if◌then◌else◌, any, find?, filter, length, ◌&&◌, find?-passes, ==-refl, Bool-cases,
  inl, inr,
}
use semcomp2026_gameficacao.Text.{text_eq}
use semcomp2026_gameficacao.Database.{Prisma}
use semcomp2026_gameficacao.Database.Schema.{
  UserSession, Key, Date, User, UserRole, participant, admin,
}
use semcomp2026_gameficacao.Database.Failure.{session_start_rejected, Failure, ok, fault}
use semcomp2026_gameficacao.Database.Tx.{Db, ◌>>=◌, ◌>>◌, pure, reads, or_throw}
use semcomp2026_gameficacao.Database.Inversion.{
  >>=-elim, reads-elim, or_throw-elim, reject_if-elim, pure-ok, rethrow-ok,
}
use semcomp2026_gameficacao.Accounts.Runtime.{Runtime}
use semcomp2026_gameficacao.Accounts.Rows.{any-All, count-none}
use semcomp2026_gameficacao.Accounts.Sessions.{
  SessionDraft, create_session_draft, session_of, logged_in, may_start, may_continue, is_open,
  is_session_of, has_valid_user, start_session, update_users, create_session,
  find_valid_session_with_user, find_user, start_or_reject,
}
use semcomp2026_gameficacao.Accounts.Auth.{
  LoginDto, SignIn, IssuedTokens, login, login_tx, start_authenticated_session_tx, translate_start,
}

may_start-may_continue :
    (k : Key) (role : UserRole) (now : Date) (u : User)
    → may_start k role now u ≡ true
    → ((u.id == k) ≡ true) × (may_continue now u ≡ true)
may_start-may_continue k participant now u h = (ground arith, ground arith)
may_start-may_continue k admin now u h = (ground arith, ground arith)

changed_user :
    (k : Key) (role : UserRole) (now : Date) (u : User)
    → ((u.id == k) ≡ true) × (may_continue now u ≡ true)
    → ((logged_in now u).id == k && may_continue now (logged_in now u)) ≡ true
changed_user k role now u h = ground (arith, h.0, h.1)

-- A session that starts now is open now.
later_open :
    (k : Key) (id : Key) (now : Date) (role : UserRole)
    → is_open now (session_of k (create_session_draft id now role)) ≡ true
later_open k id now participant = ground arith
later_open k id now admin = ground arith

-- A row that was changed passes a test that every changed row passes.
any-changed :
    {A : Type 0} (p q : A → Bool) (f : A → A) (xs : List A)
    → ((x : A) → p x ≡ true → q (f x) ≡ true)
    → any p xs ≡ true
    → any q (map (λ x. if p x then f x else x) xs) ≡ true
any-changed p q f [] k h = absurd (cc)
any-changed p q f (x ∷ xs) k h = elim (Bool-cases (p x)) [
  | inl here ↦ rw (here) (rw (k x here) refl)
  | inr next ↦ ground (arith, any-changed p q f xs k)
]

any-not_none : {A : Type 0} (p : A → Bool) (xs : List A) → any p xs ≡ true → ¬ (find? p xs ≡ none)
any-not_none p [] h k = absurd (cc)
any-not_none p (x ∷ xs) h k = elim (Bool-cases (p x)) [
  | inl here ↦ absurd (ground (arith, here))
  | inr next ↦ any-not_none p xs (ground arith) (ground arith)
]

module _ ⦃P : Prisma⦄ where
  -- What a session that was started found and left.
  record Started (k : Key) (role : UserRole) (draft : SessionDraft) (db db' : Db) : Type 0 where
    pub allowed : any (may_start k role draft.started_at) (P.find_many db.users) ≡ true
    pub users :
        P.find_many db'.users
        ≡ map
            (λ u. if may_start k role draft.started_at u then logged_in draft.started_at u else u)
            (P.find_many db.users)
    pub sessions : P.find_many db'.sessions ≡ session_of k draft ∷ P.find_many db.sessions

  update_users-ok :
      (w : User → Bool) (f : User → User) (db : Db) {count : ℕ} {db' : Db}
      → update_users w f db ≡ ok (count, db')
      → (count ≡ length (filter w (P.find_many db.users)))
        × (P.find_many db'.users ≡ map (λ u. if w u then f u else u) (P.find_many db.users))
        × (db'.sessions ≡ db.sessions)
  unfolding update_users
  update_users-ok w f db {count} {db'} h =
      let counted : count ≡ (P.update_where w f db.users).1 = ground arith in
      let table : db'.users ≡ (P.update_where w f db.users).0 = ground arith in
      (
        counted ∙ P.count-update_where w f db.users,
        ap P.find_many table ∙ P.find_many-update_where w f db.users,
        ground arith,
      )

  create_session-ok :
      (e : Failure) (s : UserSession) (db : Db) {r : Unit {0}} {db' : Db}
      → create_session e s db ≡ ok (r, db')
      → (P.find_many db'.sessions ≡ s ∷ P.find_many db.sessions) × (db'.users ≡ db.users)
  unfolding create_session
  create_session-ok e s db {r} {db'} h =
      let table : db'.sessions ≡ P.create s.id s db.sessions = ground arith in
      (ap P.find_many table ∙ P.find_many-create s.id s db.sessions, ground arith)

  -- `startSession` after its update, which counted the users that it changed.
  started :
      (k : Key) (draft : SessionDraft) (count : ℕ) (db : Db) {user : User} {db' : Db}
      → (if count == 0
            then pure none
            else create_session fault (session_of k draft) >> reads (find_user (λ u. u.id == k)))
          db
        ≡ ok (some user, db')
      → ((count == 0) ≡ false)
        × (P.find_many db'.sessions ≡ session_of k draft ∷ P.find_many db.sessions)
        × (db'.users ≡ db.users)
        × ((user.id == k) ≡ true)
  unfolding ◌>>=◌
  started k draft count db {user} {db'} h = elim (Bool-cases (count == 0)) [
    | inl none_counted ↦ absurd (ground arith)
    | inr some_counted ↦
        >>=-elim (create_session fault (session_of k draft))
          (λ _. reads (find_user (λ u. u.id == k))) db {r = (some user, db')} (ground arith)
          λ r db1 created h1.
            let made = create_session-ok fault (session_of k draft) db created in
            let row : find? (λ u. u.id == k) (P.find_many db1.users) ≡ some user =
              sym (P.find_first-eq_find? (λ (u : User). u.id == k) db1.users) ∙ ground arith in
            let same : db' ≡ db1 = ground arith in
            (
              some_counted,
              ap (λ d. P.find_many d.sessions) same ∙ made.0,
              ap (λ d. d.users) same ∙ made.1,
              find?-passes (λ (u : User). u.id == k) (P.find_many db1.users) row,
            )
  ]

  start_session-ok :
      (k : Key) (role : UserRole) (draft : SessionDraft) (db : Db) {user : User} {db' : Db}
      → start_session k role draft db ≡ ok (some user, db')
      → Started k role draft db db' × ((user.id == k) ≡ true)
  unfolding start_session
  start_session-ok k role draft db {user} {db'} h =
      let allowed = may_start k role draft.started_at in
      let users = P.find_many db.users in
      >>=-elim (update_users allowed (logged_in draft.started_at)) _ db h λ count db1 updated h1.
        let changed = update_users-ok allowed (logged_in draft.started_at) db updated in
        let made = started k draft count db1 h1 in
        elim (Bool-cases (any allowed users)) [
          | inl found ↦ (
            record {
              allowed = found;
              users = ap P.find_many (made.2) ∙ changed.1;
              sessions = made.1 ∙ ap (λ t. session_of k draft ∷ P.find_many t) (changed.2);
            },
            made.3,
          )
          | inr nobody ↦
              let nothing : count ≡ 0 =
                changed.0 ∙ count-none allowed users (any-All allowed users nobody) in
              absurd (ground arith)
        ]

  -- The session that was just started passes the check of its user.
  Started-valid :
      (k : Key) (role : UserRole) (id : Key) (now : Date) (db db' : Db)
      → Started k role (create_session_draft id now role) db db'
      → ¬ (find_valid_session_with_user id k now db' ≡ none)
  unfolding find_valid_session_with_user
  Started-valid k role id now db db' done =
      let session = session_of k (create_session_draft id now role) in
      let users = P.find_many db'.users in
      let of_user = λ (u : User). u.id == k && may_continue now u in
      let valid =
        λ (s : UserSession). is_session_of id k s && is_open now s && has_valid_user now db' s in
      let continues : any of_user users ≡ true = rw (done.users) (
        any-changed (may_start k role now) of_user (logged_in now) (P.find_many db.users)
          (λ u may. changed_user k role now u (may_start-may_continue k role now u may))
          (done.allowed)) in
      let passes : valid session ≡ true =
        rw (==-refl id, ==-refl k, later_open k id now role, continues) refl in
      let row : P.find_first valid db'.sessions ≡ some session =
        P.find_first-eq_find? valid db'.sessions ∙ rw (done.sessions) (rw (passes) refl) in
      λ refused.
        any-not_none of_user users continues
          (sym (P.find_first-eq_find? of_user db'.users) ∙ sym (rw (row) refl) ∙ refused)

  or_throw-ok :
      {A : Type 0} (o : Option A) (e : Failure) (db : Db) {a : A} {db' : Db}
      → or_throw o e db ≡ ok (a, db')
      → (o ≡ some a) × (db ≡ db')
  unfolding ◌>>=◌
  or_throw-ok none e db h = absurd (cc)
  or_throw-ok (some b) e db h = (ground arith, ground arith)

  start_or_reject-ok :
      (k : Key) (role : UserRole) (draft : SessionDraft) (db : Db) {user : User} {db' : Db}
      → start_or_reject k role draft db ≡ ok (user, db')
      → start_session k role draft db ≡ ok (some user, db')
  unfolding start_or_reject
  start_or_reject-ok k role draft db {user} {db'} h =
      >>=-elim (start_session k role draft) (λ u. or_throw u session_start_rejected) db h
        λ found db1 ran h1.
          let same = or_throw-ok found session_start_rejected db1 h1 in
          ran ∙ ap (λ o. ok (o, db1)) (same.0) ∙ ap (λ d. ok (some user, d)) (same.1)

module _ ⦃P : Prisma⦄ ⦃X : Runtime⦄ where
  start_authenticated_session_tx-valid :
      (k : Key) (role : UserRole) (s : SignIn) (db : Db) {tokens : IssuedTokens} {db' : Db}
      → start_authenticated_session_tx k role s db ≡ ok (tokens, db')
      → ¬ (find_valid_session_with_user tokens.jti tokens.user.id s.now db' ≡ none)
  unfolding start_authenticated_session_tx
  start_authenticated_session_tx-valid k role s db {tokens} {db'} h =
      let draft = create_session_draft s.session_id s.now role in
      >>=-elim (start_or_reject k role draft)
        (λ user. pure (record { jti = s.session_id; user = user })) db h
        λ user db1 ran h1.
          let same = pure-ok (record { jti = s.session_id; user = user }) db1 h1 in
          let done = start_session-ok k role draft db (start_or_reject-ok k role draft db ran) in
          let id : user.id ≡ k = ==→eq user.id k (done.1) in
          let valid : ¬ (find_valid_session_with_user s.session_id user.id s.now db1 ≡ none) =
            rw (id) (Started-valid k role s.session_id s.now db db1 (done.0)) in
          rw (same.1, same.0) valid

  -- After a login of a participant that returned, the check of the new session for its user at that
  -- time does not refuse it.
  pub login-find_valid_session_with_user :
      (dto : LoginDto) (s : SignIn) (tokens : IssuedTokens) (db : Db)
      → (login dto s db).0 ≡ ok tokens
      → ¬ (find_valid_session_with_user tokens.jti tokens.user.id s.now (login dto s db).1 ≡ none)
  unfolding login login_tx
  login-find_valid_session_with_user dto s tokens db h =
      let after = (login dto s db).1 in
      let ran : login_tx dto s db ≡ ok (tokens, after) =
        rethrow-ok (translate_start participant) (login_tx dto s) db h in
      reads-elim (find_user (λ u. text_eq u.email dto.email)) _ db ran λ h1.
        reject_if-elim _ _ _ db h1 λ _ h2. or_throw-elim _ _ _ db h2 λ candidate _ h3.
          reject_if-elim _ _ _ db h3
            λ _ h4. start_authenticated_session_tx-valid candidate.id participant s db h4
