-- ===== src/Accounts/KeepsGeneral.antt =====
-- An generals_in general administrator is left after every request.
use semcomp2026_gameficacao.Prelude.{
  ◌≤◌, ◌≡◌, refl, sym, ◌∙◌, ap, Bool, true, false, ◌||◌, Option, none, some, arith, ◌==◌,
  if◌then◌else◌, All-map, any, find?, length, Bool-cases, inl, inr,
}
use semcomp2026_gameficacao.Text.{text_eq}
use semcomp2026_gameficacao.Database.{Prisma}
use semcomp2026_gameficacao.Database.Schema.{
  Key, Date, User, admin, AdminProfile, UserSession, AdminActivation,
}
use semcomp2026_gameficacao.Database.Failure.{Failure, ok, err, unique_constraint, fault}
use semcomp2026_gameficacao.Database.Tx.{Db, ◌>>=◌, or_throw}
use semcomp2026_gameficacao.Database.Inversion.{>>=-elim, reads-elim, pure-ok}
use semcomp2026_gameficacao.Accounts.Passwords.{same_role}
use semcomp2026_gameficacao.Accounts.Sessions
use semcomp2026_gameficacao.Accounts.Sessions.{
  find_user, update_sessions, update_users, create_session, delete_sessions_ended_before,
  create_user,
}
use semcomp2026_gameficacao.Accounts.Operators.Repository
use semcomp2026_gameficacao.Accounts.Operators.Repository.{
  update_activations, create_activation, find_operator_by_id, lock_operator,
}
use semcomp2026_gameficacao.Accounts.Operators.Rows.{
  AdminOperator, is_available_general, is_operator, to_operator_record,
}
use semcomp2026_gameficacao.Accounts.Operators.Policy.{is_only}
use semcomp2026_gameficacao.Accounts.Keeps.{Carries, Holds, Keeps}
use semcomp2026_gameficacao.Accounts.Stable.{Spares, Stable}
use semcomp2026_gameficacao.Accounts.Rows.{some_inj, any-All}
use semcomp2026_gameficacao.Accounts.Generals.{
  generals_in, count-cons, DistinctIds, DistinctIds-update, count-spared, general_left,
}

no_row : {o : AdminOperator} → some o ≡ none → ⊥
no_row h = cc

module _ ⦃P : Prisma⦄ where
  abbrev pub HasGeneral : Db → Type 0
  HasGeneral db =
      DistinctIds (P.find_many db.users) × (1 ≤ length (generals_in (P.find_many db.users)))

  spared-HasGeneral :
      (w : User → Bool) (f : User → User) → Spares f → Keeps HasGeneral (update_users w f)
  unfolding update_users Carries
  spared-HasGeneral w f spares db i = rw (P.find_many-update_where w f db.users) (
    DistinctIds-update w f (P.find_many db.users) (λ u. (spares u).0) (i.0),
    omega (arith, count-spared w f (P.find_many db.users) spares, i.1),
  )

  user_created-HasGeneral : (new : User) → Keeps HasGeneral (create_user new)
  unfolding create_user Carries
  user_created-HasGeneral new db i =
      let rows = P.find_many db.users in
      elim (Bool-cases (any (Sessions.same_account new) rows)) [
        | inl clash ↦ rw (clash) tt
        | inr free ↦ rw (free) (
            rw (P.find_many-create new.id new db.users) (
              (
                All-map (λ v. Sessions.same_account new v ≡ false) _ rows (λ v h. ground arith)
                    (any-All (Sessions.same_account new) rows free),
                i.0,
              ),
              omega (arith, count-cons is_available_general new rows, i.1),
            ))
      ]

  session_created-HasGeneral :
      (e : Failure) (s : UserSession) → Keeps HasGeneral (create_session e s)
  unfolding create_session Carries
  session_created-HasGeneral e s db i =
      elim (any (λ old. old.id == s.id) (P.find_many db.sessions))
        as (λ b.
          Holds HasGeneral
            (if b then err e else ok (tt, record db { sessions = P.create s.id s db.sessions }))) [
              | true ↦ tt
              | false ↦ i
            ]

  activation_created-HasGeneral : (a : AdminActivation) → Keeps HasGeneral (create_activation a)
  unfolding create_activation Carries
  activation_created-HasGeneral a db i =
      elim (any (λ old. old.id == a.id || text_eq old.code_hash a.code_hash)
          (P.find_many db.admin_activations))
        as (λ b. Holds HasGeneral (
          if b
          then err unique_constraint
          else ok (tt, record db { admin_activations = P.create a.id a db.admin_activations }))) [
            | true ↦ tt
            | false ↦ i
          ]

  pub HasGeneral-Stable : Stable HasGeneral (λ k. Unit)
  unfolding update_sessions delete_sessions_ended_before update_activations Carries
  HasGeneral-Stable = record {
    audited = λ t db i. i;
    sessions_updated = λ w f _ db i. i;
    session_created = λ e s _. session_created-HasGeneral e s;
    sessions_deleted = λ cutoff db i. i;
    users_updated = spared-HasGeneral;
    user_created = user_created-HasGeneral;
    activations_updated = λ w f _ db i. i;
    activation_created = activation_created-HasGeneral;
  }

  -- The users are those of a state.
  abbrev pub SameUsers : Db → Db → Type 0
  SameUsers db d = d.users ≡ db.users

  pub changed-HasGeneral :
      (db : Db) (p : User → Bool) (f : User → User) {v : User}
      → HasGeneral db
      → find_user p db ≡ some v
      → ((u : User) → (f u).id ≡ u.id)
      → (is_available_general v ≡ true
          → is_available_general (f v) ≡ false
          → is_only v.id (generals_in (P.find_many db.users)) ≡ false)
      → Carries (SameUsers db) HasGeneral (update_users (λ u. u.id == v.id) f)
  unfolding update_users Carries
  changed-HasGeneral db p f {v} i found keeps_id guard d same =
      let row : find? p (P.find_many db.users) ≡ some v =
        sym (P.find_first-eq_find? p db.users) ∙ found in
      rw (same) (
        rw (P.find_many-update_where (λ u. u.id == v.id) f db.users) (
          DistinctIds-update (λ u. u.id == v.id) f (P.find_many db.users) keeps_id (i.0),
          general_left p f (P.find_many db.users) (i.0) (i.1) row guard,
        ))

  -- The row of an operator that was read.
  pub record FoundOperator (id : Key) (db : Db) (o : AdminOperator) : Type 0 where
    pub row : find_user (is_operator id) db ≡ some o.user
    pub profile : o.user.admin_profile ≡ some o.admin_profile

  operator_record-ok :
      (u : User) (profile : Option AdminProfile) (expires_at : Option Date) {o : AdminOperator}
      → to_operator_record u profile expires_at ≡ some o
      → (u ≡ o.user) × (profile ≡ some o.admin_profile)
  operator_record-ok u none expires_at h = absurd (cc)
  operator_record-ok u (some p) expires_at {o} h = elim (Bool-cases (same_role u.role admin)) [
    | inl is_admin ↦
        let equal : record { user = u; admin_profile = p; activation_expires_at = expires_at } ≡ o =
          some_inj (sym (rw (is_admin) refl) ∙ h) in
        (ap (λ x. x.user) equal, ap (λ x. some x.admin_profile) equal)
    | inr other ↦ absurd (ground arith)
  ]

  or_throw-ok :
      {A : Type 0} (x : Option A) (e : Failure) (db : Db) {a : A} {db' : Db}
      → or_throw x e db ≡ ok (a, db')
      → (x ≡ some a) × (db' ≡ db)
  unfolding ◌>>=◌
  or_throw-ok none e db h = absurd (cc)
  or_throw-ok (some b) e db h = ground arith

  to_record_of-ok :
      (now : Date) (u : User) (db : Db) {o : AdminOperator} {db' : Db}
      → Repository.to_record_of now u db ≡ ok (o, db')
      → (db' ≡ db) × ((u ≡ o.user) × (u.admin_profile ≡ some o.admin_profile))
  to_record_of-ok now u db {o} {db'} h = reads-elim _ _ db h λ h1.
      let made = or_throw-ok _ fault db h1 in
      let parts = operator_record-ok u u.admin_profile _ (made.0) in (made.1, parts)

  record_if_found-ok :
      (id : Key) (now : Date) (row : Option User) (db : Db) {o : AdminOperator} {db' : Db}
      → find_user (is_operator id) db ≡ row
      → Repository.record_if_found now row db ≡ ok (some o, db')
      → (db' ≡ db) × FoundOperator id db o
  record_if_found-ok id now none db read h = absurd (no_row (pure-ok none db h).0)
  record_if_found-ok id now (some u) db {o} {db'} read h =
      >>=-elim (Repository.to_record_of now u) _ db h λ o' db1 r h1.
        let done = pure-ok (some o') db1 h1 in
        let same : o ≡ o' = some_inj done.0 in
        let made = to_record_of-ok now u db r in
        (
          done.1 ∙ made.0,
          record {
            row = read ∙ ap some (made.1.0) ∙ ap (λ x. some x.user) (sym same);
            profile =
                ap (λ x. x.user.admin_profile) same
                ∙ ap (λ x. x.admin_profile) (sym made.1.0)
                ∙ made.1.1
                ∙ ap (λ x. some x.admin_profile) (sym same);
          },
        )

  pub lock_operator-ok :
      (id : Key) (now : Date) (db : Db) {o : AdminOperator} {db' : Db}
      → lock_operator id now db ≡ ok (some o, db')
      → (db' ≡ db) × FoundOperator id db o
  unfolding lock_operator find_operator_by_id
  lock_operator-ok id now db h =
      reads-elim (find_user (is_operator id)) _ db h
        λ h1. record_if_found-ok id now (find_user (is_operator id) db) db refl h1
