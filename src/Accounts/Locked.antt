-- ===== src/Accounts/Locked.antt =====
-- The first statements of the requests on an operator, and what their guard tells.
use mathlib.Core.Path.{subst}
use semcomp2026_gameficacao.Prelude.{
  ◌≡◌, sym, ◌∙◌, ap, Bool, true, false, ◌&&◌, some, List, arith, ◌==◌, find?-passes,
}
use semcomp2026_gameficacao.Database.{Prisma}
use semcomp2026_gameficacao.Database.Schema.{Key, Date, User, participant}
use semcomp2026_gameficacao.Database.Failure.{Failure, ok}
use semcomp2026_gameficacao.Database.Tx.{Db, Tx, ◌>>=◌, reads, or_throw}
use semcomp2026_gameficacao.Accounts.Passwords.{same_role}
use semcomp2026_gameficacao.Accounts.Sessions.{find_user, update_sessions, revoke_open_sessions}
use semcomp2026_gameficacao.Accounts.Operators.Repository.{
  lock_available_generals, lock_operator, update_activations, revoke_pending_activations,
}
use semcomp2026_gameficacao.Accounts.Operators.Rows.{AdminOperator, is_available_general}
use semcomp2026_gameficacao.Accounts.Operators.Policy.{
  RequestedChange, removes_availability, is_only, is_last_general,
}
use semcomp2026_gameficacao.Accounts.Keeps.{
  Carries, Holds, Keeps, >>=-Holds, reads-Holds, or_throw-Holds,
}
use semcomp2026_gameficacao.Accounts.KeepsGeneral.{
  HasGeneral, SameUsers, FoundOperator, lock_operator-ok,
}

module _ ⦃P : Prisma⦄ where
  -- The first statements of the three requests on an operator.
  pub locked-Holds :
      {B : Type 0} (id : Key) (now : Date) (e : Failure) (f : List User → AdminOperator → Tx B)
      (db : Db)
      → ((o : AdminOperator)
          → FoundOperator id db o
          → Holds HasGeneral (f (lock_available_generals db) o db))
      → Holds HasGeneral (
          (reads lock_available_generals >>= λ generals.
          lock_operator id now >>= λ found. or_throw found e >>= λ current. f generals current)
            db)
  locked-Holds id now e f db k = reads-Holds HasGeneral lock_available_generals _ db (
      >>=-Holds HasGeneral (lock_operator id now) _ db λ found db1 r.
        or_throw-Holds HasGeneral found e _ db1 λ o is_o.
          let locked = lock_operator-ok id now db (r ∙ ap (λ x. ok (x, db1)) is_o) in
          subst (λ d. Holds HasGeneral (f (lock_available_generals db) o d)) (sym locked.0)
            (k o (locked.1)))

  pub sessions-SameUsers :
      (db : Db) (id : Key) (now : Date) → Keeps (SameUsers db) (revoke_open_sessions id now)
  unfolding revoke_open_sessions update_sessions Carries
  sessions-SameUsers db id now d same = same

  pub activations-SameUsers :
      (db : Db) (id : Key) (now : Date) → Keeps (SameUsers db) (revoke_pending_activations id now)
  unfolding revoke_pending_activations update_activations Carries
  activations-SameUsers db id now d same = same

  abbrev pub is_participant_row : Key → User → Bool
  is_participant_row id u = u.id == id && same_role u.role participant

  pub participant_unavailable :
      (id : Key) (db : Db) {u : User}
      → find_user (is_participant_row id) db ≡ some u
      → is_available_general u ≡ true
      → ⊥
  participant_unavailable id db found mine =
      let row = sym (P.find_first-eq_find? (is_participant_row id) db.users) ∙ found in
      let passes = find?-passes (is_participant_row id) (P.find_many db.users) row in ground arith

  pub only_general :
      (id : Key) (db : Db) (o : AdminOperator) (change : RequestedChange) (generals : List User)
      → FoundOperator id db o
      → is_last_general o change generals ≡ false
      → is_available_general o.user ≡ true
      → removes_availability change ≡ true
      → is_only o.user.id generals ≡ false
  only_general id db o change generals found kept mine removes = ground (arith, found.profile)
