-- ===== src/Accounts/Changes.antt =====
-- Whatever is stable under the statements of the account services holds after a required change of
-- password and after what administrators do to participants and operators.
use semcomp2026_gameficacao.Prelude.{
  ℕ, ◌+◌, refl, Bool, true, false, Option, none, some, arith, if◌then◌else◌,
}
use semcomp2026_gameficacao.Database.{Prisma}
use semcomp2026_gameficacao.Database.Schema.{Key, Date, User, revoked}
use semcomp2026_gameficacao.Database.Failure.{Result, ok, err}
use semcomp2026_gameficacao.Database.Tx.{Db, pure}
use semcomp2026_gameficacao.Text.{Text}
use semcomp2026_gameficacao.Audit.Contract.{OperationContext}
use semcomp2026_gameficacao.Accounts.Runtime.{Runtime}
use semcomp2026_gameficacao.Accounts.Passwords.{
  matches_hash, hash_participant_password, has_valid_participant_password_reset,
}
use semcomp2026_gameficacao.Accounts.Auth
use semcomp2026_gameficacao.Accounts.PasswordChange
use semcomp2026_gameficacao.Accounts.Auth.{SignIn, change_required_password, end}
use semcomp2026_gameficacao.Accounts.PasswordChange.{
  PasswordChange, with_new_password, can_complete, find_participant_password_reset,
  write_password_change, complete_participant_password_change,
}
use semcomp2026_gameficacao.Accounts.Participants.{
  ResetPasswordDto, ResetDraw, with_temporary_password, write_reset_password, reset_password_tx,
  reset_password, participant_temporary_password_ttl_ms,
}
use semcomp2026_gameficacao.Accounts.Keeps.{
  Keeps, >>=-Keeps, pure-Keeps, reads-Keeps, or_throw-Keeps, reject_if-Keeps,
  with_transaction-Keeps,
}
use semcomp2026_gameficacao.Accounts.Stable.{Spares, Stable, record_audit-Keeps}
use semcomp2026_gameficacao.Accounts.Steps.{
  with_new_password-Spares, revoke_open_sessions-Keeps, end-Keeps,
}

pub with_temporary_password-Spares :
    (password_hash : Text) (changed_at expires_at : Date)
    → Spares (with_temporary_password password_hash changed_at expires_at)
with_temporary_password-Spares password_hash changed_at expires_at u = (refl, λ h. ground arith)

module _ ⦃P : Prisma⦄ ⦃X : Runtime⦄ (I : Db → Type 0) {MayOpen : Key → Type 0}
    (stable : Stable I MayOpen) where
  complete_with-Keeps :
      (change : PasswordChange) (found : Option User)
      → Keeps I (PasswordChange.complete_with change found)
  unfolding write_password_change
  complete_with-Keeps change none = pure-Keeps I none
  complete_with-Keeps change (some current) =
      elim (can_complete change current)
        as (λ b. Keeps I (if b then write_password_change change else pure none)) [
          | true ↦
              >>=-Keeps I _ _
                (stable.users_updated _ (with_new_password change)
                  (with_new_password-Spares change))
                λ _.
                  >>=-Keeps I _ _
                    (revoke_open_sessions-Keeps I stable change.participant_id change.changed_at)
                    λ count. pure-Keeps I (some count)
          | false ↦ pure-Keeps I none
        ]

  complete-Keeps : (change : PasswordChange) → Keeps I (complete_participant_password_change change)
  unfolding complete_participant_password_change
  complete-Keeps change =
      >>=-Keeps I _ _ (reads-Keeps I _) λ found. complete_with-Keeps change found

  changed_or_revoked-Keeps :
      (session_id user_id : Key) (now : Date) (x : Result (Option ℕ) × Db)
      → I x.1
      → I (Auth.changed_or_revoked session_id user_id now x).1
  changed_or_revoked-Keeps session_id user_id now (err e, db) i = i
  changed_or_revoked-Keeps session_id user_id now (ok none, db) i =
      end-Keeps I stable session_id user_id now revoked db i
  changed_or_revoked-Keeps session_id user_id now (ok (some count), db) i = i

  change_to-Keeps :
      (hashed : Option Text) (change : PasswordChange) (session_id : Key) (db : Db)
      → I db
      → I (Auth.change_to hashed change session_id db).1
  change_to-Keeps none change session_id db i = i
  change_to-Keeps (some new_password_hash) change session_id db i =
      changed_or_revoked-Keeps session_id change.participant_id change.changed_at _
        (with_transaction-Keeps I _ db i (complete-Keeps _))

  unless_same-Keeps :
      (matches : Option Bool) (new_password : Text) (change : PasswordChange) (s : SignIn)
      (session_id : Key) (db : Db)
      → I db
      → I (Auth.unless_same matches new_password change s session_id db).1
  unless_same-Keeps none new_password change s session_id db i = i
  unless_same-Keeps (some true) new_password change s session_id db i = i
  unless_same-Keeps (some false) new_password change s session_id db i =
      change_to-Keeps (hash_participant_password s.salt new_password) change session_id db i

  change_pending-Keeps :
      (digest : Option Text) (valid : Bool) (participant_id session_id : Key) (new_password : Text)
      (s : SignIn) (db : Db)
      → I db
      → I (Auth.change_pending digest valid participant_id session_id new_password s db).1
  change_pending-Keeps (some digest) true participant_id session_id new_password s db i =
      unless_same-Keeps (matches_hash new_password digest) new_password _ s session_id db i
  change_pending-Keeps (some digest) false participant_id session_id new_password s db i =
      end-Keeps I stable session_id participant_id s.now revoked db i
  change_pending-Keeps none valid participant_id session_id new_password s db i =
      end-Keeps I stable session_id participant_id s.now revoked db i

  change_found-Keeps :
      (found : Option User) (participant_id session_id : Key) (new_password : Text) (s : SignIn)
      (db : Db)
      → I db
      → I (Auth.change_found found participant_id session_id new_password s db).1
  change_found-Keeps none participant_id session_id new_password s db i = i
  change_found-Keeps (some pending) participant_id session_id new_password s db i =
      elim pending.password_reset_required
        as (λ b.
          I
            (if b
              then Auth.change_pending pending.password_hash
                  (has_valid_participant_password_reset pending s.now) participant_id session_id
                  new_password s db
              else Auth.change_found none participant_id session_id new_password s db).1) [
                | true ↦
                    change_pending-Keeps pending.password_hash
                      (has_valid_participant_password_reset pending s.now) participant_id session_id
                      new_password s db i
                | false ↦ i
              ]

  pub change_required_password-Keeps :
      (participant_id session_id : Key) (new_password : Text) (s : SignIn) (db : Db)
      → I db
      → I (change_required_password participant_id session_id new_password s db).1
  unfolding change_required_password
  change_required_password-Keeps participant_id session_id new_password s db i =
      change_found-Keeps (find_participant_password_reset participant_id db) participant_id
        session_id new_password s db i

  pub reset_password-Keeps :
      (id : Key) (dto : ResetPasswordDto) (context : OperationContext) (draw : ResetDraw) (db : Db)
      → I db
      → I (reset_password id dto context draw db).1
  unfolding reset_password reset_password_tx write_reset_password
  reset_password-Keeps id dto context draw db i =
      with_transaction-Keeps I (reset_password_tx id dto context draw) db i (
        >>=-Keeps I _ _ (or_throw-Keeps I _ _) λ password_hash.
          >>=-Keeps I _ _ (reads-Keeps I _) λ found.
            >>=-Keeps I _ _ (or_throw-Keeps I found _) λ current.
              >>=-Keeps I _ _ (reject_if-Keeps I _ _) λ _.
                >>=-Keeps I _ _
                  (stable.users_updated _
                    (with_temporary_password password_hash draw.now
                      (draw.now + participant_temporary_password_ttl_ms))
                    (with_temporary_password-Spares password_hash draw.now
                      (draw.now + participant_temporary_password_ttl_ms)))
                  λ _. >>=-Keeps I _ _ (revoke_open_sessions-Keeps I stable _ _) λ count.
                    >>=-Keeps I _ _ (record_audit-Keeps I stable _ _ _) λ _. pure-Keeps I _)
