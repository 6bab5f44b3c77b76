-- ===== src/Accounts/Stable.antt =====
-- The statements of the account services, as steps that an invariant may be stable under, and the
-- services that are made of such steps alone.
use semcomp2026_gameficacao.Prelude.{◌≡◌, refl, Bool, true}
use semcomp2026_gameficacao.Database.{Prisma}
use semcomp2026_gameficacao.Database.Schema.{Key, Date, User, UserSession, AdminActivation}
use semcomp2026_gameficacao.Database.Failure.{Failure, Result, ok, err}
use semcomp2026_gameficacao.Database.Tx.{Db}
use semcomp2026_gameficacao.Audit.{AuditInput, record_audit}
use semcomp2026_gameficacao.Audit.Contract.{AuditEvent}
use semcomp2026_gameficacao.Audit.Record.{record_audit-ok}
use semcomp2026_gameficacao.Accounts.Sessions.{
  is_open, update_sessions, update_users, create_session, create_user, delete_sessions_ended_before,
}
use semcomp2026_gameficacao.Accounts.Operators.Repository.{update_activations, create_activation}
use semcomp2026_gameficacao.Accounts.Operators.Rows.{is_available_general, is_pending_activation}
use semcomp2026_gameficacao.Accounts.Keeps.{Carries, Holds, Keeps}

-- A change of a session that never opens one.
abbrev pub Shuts : (UserSession → UserSession) → Type 0
Shuts f =
    (s : UserSession)
    → ((f s).id ≡ s.id)
      × ((f s).user_id ≡ s.user_id)
      × ((t : Date) → is_open t (f s) ≡ true → is_open t s ≡ true)

-- A change of a user that makes no generals_in general unavailable.
abbrev pub Spares : (User → User) → Type 0
Spares f =
    (u : User)
    → ((f u).id ≡ u.id) × (is_available_general u ≡ true → is_available_general (f u) ≡ true)

-- A change of an activation that never makes one pending.
abbrev pub Settles : (AdminActivation → AdminActivation) → Type 0
Settles f =
    (a : AdminActivation)
    → ((f a).code_hash ≡ a.code_hash)
      × (is_pending_activation (f a) ≡ true → is_pending_activation a ≡ true)

-- `MayOpen` says which ids a new session may have.
pub record Stable ⦃P : Prisma⦄ (I : Db → Type 0) (MayOpen : Key → Type 0) : Type 0 where
  pub audited : (t : P.Table AuditEvent) (db : Db) → I db → I (record db { audit_events = t })
  pub sessions_updated :
      (w : UserSession → Bool) (f : UserSession → UserSession)
      → Shuts f
      → Keeps I (update_sessions w f)
  pub session_created :
      (e : Failure) (s : UserSession) → MayOpen s.id → Keeps I (create_session e s)
  pub sessions_deleted : (cutoff : Date) → Keeps I (delete_sessions_ended_before cutoff)
  pub users_updated : (w : User → Bool) (f : User → User) → Spares f → Keeps I (update_users w f)
  pub user_created : (u : User) → Keeps I (create_user u)
  pub activations_updated :
      (w : AdminActivation → Bool) (f : AdminActivation → AdminActivation)
      → Settles f
      → Keeps I (update_activations w f)
  pub activation_created : (a : AdminActivation) → Keeps I (create_activation a)

module _ ⦃P : Prisma⦄ (I : Db → Type 0) where
  Holds-if_ok :
      {A : Type 0} (x : Result (A × Db)) → ((a : A) (db : Db) → x ≡ ok (a, db) → I db) → Holds I x
  Holds-if_ok (err e) k = tt
  Holds-if_ok (ok (a, db)) k = k a db refl

  pub record_audit-Keeps :
      {MayOpen : Key → Type 0} (stable : Stable I MayOpen) (id : Key) (now : Date)
      (input : AuditInput)
      → Keeps I (record_audit id now input)
  unfolding Carries
  record_audit-Keeps stable id now input db i =
      Holds-if_ok (record_audit id now input db) λ r db' h.
        let recorded = record_audit-ok id now input db r db' h in
        rw (recorded.state) (stable.audited _ db i)
