-- ===== src/Accounts/Spent.antt =====
-- An activation code that was used or revoked is never good again.
use semcomp2026_gameficacao.Prelude.{
  ◌≡◌, refl, ◌∙◌, ap, map, [], ◌∷◌, Bool, true, false, ◌||◌, List, arith, ◌==◌, if◌then◌else◌, All,
  any, Bool-cases, inl, inr,
}
use semcomp2026_gameficacao.Text.{Text, text_eq, text_eq→eq}
use semcomp2026_gameficacao.Database.{Prisma}
use semcomp2026_gameficacao.Database.Schema.{Key, User, UserSession, AdminActivation}
use semcomp2026_gameficacao.Database.Failure.{Failure, ok, err, unique_constraint}
use semcomp2026_gameficacao.Database.Tx.{Db}
use semcomp2026_gameficacao.Accounts.Runtime.{Runtime}
use semcomp2026_gameficacao.Accounts.Sessions
use semcomp2026_gameficacao.Accounts.Sessions.{
  update_sessions, update_users, create_session, delete_sessions_ended_before, create_user,
}
use semcomp2026_gameficacao.Accounts.Operators.Repository.{update_activations, create_activation}
use semcomp2026_gameficacao.Accounts.Operators.Rows.{is_pending_activation}
use semcomp2026_gameficacao.Accounts.Requests.{
  AccountRequest, sign_up, sign_in, sign_in_admin, run_accounts,
}
use semcomp2026_gameficacao.Accounts.Keeps.{Carries, Holds, Keeps}
use semcomp2026_gameficacao.Accounts.Stable.{Settles, Stable}
use semcomp2026_gameficacao.Accounts.Run.{Opens, run_accounts-Keeps, any_user-Guarded}
use semcomp2026_gameficacao.Accounts.Rows.{All-update, still_false}

abbrev pub IsSettled : Text → AdminActivation → Type 0
IsSettled h a = text_eq a.code_hash h ≡ true → is_pending_activation a ≡ false

module _ ⦃P : Prisma⦄ where
  -- The code was given out, and no row of it is pending.
  abbrev pub IsSpent : Text → Db → Type 0
  IsSpent h db =
      (any (λ a. text_eq a.code_hash h) (P.find_many db.admin_activations) ≡ true)
      × All (IsSettled h) (P.find_many db.admin_activations)

pub any-update :
    (h : Text) (w : AdminActivation → Bool) (f : AdminActivation → AdminActivation)
    (xs : List AdminActivation)
    → Settles f
    → any (λ a. text_eq a.code_hash h) (map (λ a. if w a then f a else a) xs)
      ≡ any (λ a. text_eq a.code_hash h) xs
any-update h w f [] k = refl
any-update h w f (x ∷ xs) k = ground (arith, (k x).0, any-update h w f xs k)

any-or :
    (p q : AdminActivation → Bool) (xs : List AdminActivation)
    → any (λ x. p x || q x) xs ≡ false
    → any q xs ≡ false
any-or p q [] free = refl
any-or p q (x ∷ xs) free = ground (arith, any-or p q xs)

any_clash :
    (h : Text) (id : Key) (hash : Text) (xs : List AdminActivation)
    → any (λ old. old.id == id || text_eq old.code_hash hash) xs ≡ false
    → any (λ a. text_eq a.code_hash h) xs ≡ true
    → text_eq hash h ≡ false
any_clash h id hash xs free given = elim (Bool-cases (text_eq hash h)) [
  | inl same ↦
      let clash : any (λ a. text_eq a.code_hash hash) xs ≡ false =
        any-or (λ old. old.id == id) (λ old. text_eq old.code_hash hash) xs free in
      let moved : any (λ a. text_eq a.code_hash hash) xs ≡ any (λ a. text_eq a.code_hash h) xs =
        ap (λ z. any (λ a. text_eq a.code_hash z) xs) (text_eq→eq hash h same) in
      absurd (cc)
  | inr other ↦ other
]

module _ ⦃P : Prisma⦄ (h : Text) where
  updated-IsSpent :
      (w : AdminActivation → Bool) (f : AdminActivation → AdminActivation)
      → Settles f
      → Keeps (IsSpent h) (update_activations w f)
  unfolding update_activations Carries
  updated-IsSpent w f settles db i = rw (P.find_many-update_where w f db.admin_activations) (
    any-update h w f (P.find_many db.admin_activations) settles ∙ i.0,
    All-update (IsSettled h) w f (P.find_many db.admin_activations)
        (λ a before same.
          still_false (is_pending_activation (f a)) (is_pending_activation a) ((settles a).1)
            (before (ground (arith, (settles a).0))))
        (i.1),
  )

  created-IsSpent : (a : AdminActivation) → Keeps (IsSpent h) (create_activation a)
  unfolding create_activation Carries
  created-IsSpent a db i =
      let taken =
        any (λ old. old.id == a.id || text_eq old.code_hash a.code_hash)
          (P.find_many db.admin_activations) in
      elim (Bool-cases taken) [
        | inl clash ↦ rw (clash) tt
        | inr free ↦
            let other =
              any_clash h a.id a.code_hash (P.find_many db.admin_activations) free (i.0) in
            rw (free) (
              rw (P.find_many-create a.id a db.admin_activations)
                (rw (other) (i.0), ((λ same. absurd (cc)), i.1)))
      ]

  session_created-IsSpent : (e : Failure) (s : UserSession) → Keeps (IsSpent h) (create_session e s)
  unfolding create_session Carries
  session_created-IsSpent e s db i =
      elim (any (λ old. old.id == s.id) (P.find_many db.sessions))
        as (λ b.
          Holds (IsSpent h)
            (if b then err e else ok (tt, record db { sessions = P.create s.id s db.sessions }))) [
              | true ↦ tt
              | false ↦ i
            ]

  user_created-IsSpent : (new : User) → Keeps (IsSpent h) (create_user new)
  unfolding create_user Carries
  user_created-IsSpent new db i =
      elim (any (Sessions.same_account new) (P.find_many db.users))
        as (λ b. Holds (IsSpent h) (
          if b
          then err unique_constraint
          else ok (tt, record db { users = P.create new.id new db.users }))) [
            | true ↦ tt
            | false ↦ i
          ]

  any_user-IsSpent : (w : User → Bool) (f : User → User) → Keeps (IsSpent h) (update_users w f)
  unfolding update_users Carries
  any_user-IsSpent w f db i = i

  pub IsSpent-Stable : Stable (IsSpent h) (λ k. Unit)
  unfolding update_sessions delete_sessions_ended_before Carries
  IsSpent-Stable = record {
    audited = λ t db i. i;
    sessions_updated = λ w f _ db i. i;
    session_created = λ e s _. session_created-IsSpent e s;
    sessions_deleted = λ cutoff db i. i;
    users_updated = λ w f _. any_user-IsSpent w f;
    user_created = user_created-IsSpent;
    activations_updated = updated-IsSpent;
    activation_created = created-IsSpent;
  }

Opens-any : (q : AccountRequest) → Opens (λ k. Unit) q
Opens-any (sign_up dto s) = tt
Opens-any (sign_in dto s) = tt
Opens-any (sign_in_admin dto s) = tt
Opens-any _ = tt

pub All-open : (qs : List AccountRequest) → All (Opens (λ k. Unit)) qs
All-open [] = tt
All-open (q ∷ qs) = (Opens-any q, All-open qs)

module _ ⦃P : Prisma⦄ ⦃X : Runtime⦄ where
  pub run_accounts-IsSpent :
      (h : Text) (qs : List AccountRequest) (db : Db)
      → IsSpent h db
      → IsSpent h (run_accounts qs db)
  run_accounts-IsSpent h qs db =
      run_accounts-Keeps (IsSpent h) (IsSpent-Stable h)
        (any_user-Guarded (IsSpent h) (IsSpent-Stable h) (any_user-IsSpent h)) qs db (All-open qs)
