-- ===== src/Accounts/Revoked.antt =====
-- What revokes sessions: the reset of a participant's password and of an operator's access.
use semcomp2026_gameficacao.Prelude.{
  ◌≤◌, ◌≡◌, ◌≢◌, sym, ◌∙◌, ◌&&◌, none, some, List, arith, ◌==◌, All, find?-passes,
}
use mathlib.Core.Path.{subst}
use semcomp2026_gameficacao.Text.{Text}
use semcomp2026_gameficacao.Database.{Prisma}
use semcomp2026_gameficacao.Database.Schema.{Key, Date, User, participant}
use semcomp2026_gameficacao.Database.Failure.{ok}
use semcomp2026_gameficacao.Database.Tx.{Db}
use semcomp2026_gameficacao.Database.Inversion.{>>=-elim, reads-elim, or_throw-elim, reject_if-elim}
use semcomp2026_gameficacao.Audit.Contract.{OperationContext}
use semcomp2026_gameficacao.Accounts.Runtime.{Runtime}
use semcomp2026_gameficacao.Accounts.Passwords.{same_role}
use semcomp2026_gameficacao.Accounts.Sessions.{find_valid_session_with_user}
use semcomp2026_gameficacao.Accounts.Participants.{
  ResetPasswordDto, ResetDraw, TemporaryPassword, write_reset_password, reset_password_tx,
  reset_password, lock_participant_row,
}
use semcomp2026_gameficacao.Accounts.Requests.{AccountRequest, run_accounts}
use semcomp2026_gameficacao.Accounts.Keeps.{>>=-Keeps, pure-Keeps, ok-Keeps}
use semcomp2026_gameficacao.Accounts.Stable.{record_audit-Keeps}
use semcomp2026_gameficacao.Accounts.Run.{Opens}
use semcomp2026_gameficacao.Accounts.Closed.{
  IsClosed, IsClosed-Stable, IsClosed-invalid, revoke_open_sessions-IsClosed, run_accounts-IsClosed,
}

module _ ⦃P : Prisma⦄ ⦃X : Runtime⦄ where
  write_reset_password-IsClosed :
      (j : Key) (current : User) (password_hash : Text) (dto : ResetPasswordDto)
      (context : OperationContext) (draw : ResetDraw) (db : Db) {r : TemporaryPassword} {db' : Db}
      → write_reset_password current password_hash dto context draw db ≡ ok (r, db')
      → IsClosed j current.id draw.now db'
  unfolding write_reset_password
  write_reset_password-IsClosed j current password_hash dto context draw db h =
      >>=-elim _ _ db h λ _ db1 r1 h1. >>=-elim _ _ db1 h1 λ count db2 r2 h2.
        let closed = revoke_open_sessions-IsClosed j current.id draw.now db1 r2 in
        let stable = IsClosed-Stable j current.id draw.now in
        let I = IsClosed j current.id draw.now in
        ok-Keeps I _ db2 (>>=-Keeps I _ _ (record_audit-Keeps I stable _ _ _) λ _. pure-Keeps I _)
          closed h2

  locked_id : (id : Key) (db : Db) {u : User} → lock_participant_row id db ≡ some u → u.id ≡ id
  locked_id id db found =
      let passes =
        find?-passes (λ u. u.id == id && same_role u.role participant) (P.find_many db.users)
          (sym (P.find_first-eq_find? _ db.users) ∙ found) in
      ground arith

  reset_password-IsClosed :
      (j id : Key) (dto : ResetPasswordDto) (context : OperationContext) (draw : ResetDraw)
      (db : Db) {r : TemporaryPassword}
      → (reset_password id dto context draw db).0 ≡ ok r
      → IsClosed j id draw.now (reset_password id dto context draw db).1
  unfolding reset_password reset_password_tx
  reset_password-IsClosed j id dto context draw db {r} h =
      let ran : reset_password_tx id dto context draw db
          ≡ ok (r, (reset_password id dto context draw db).1) =
        ground arith in
      or_throw-elim _ _ _ db ran λ password_hash _ h1.
        reads-elim (lock_participant_row id) _ db h1 λ h2.
          or_throw-elim (lock_participant_row id db) _ _ db h2 λ current found h3.
            reject_if-elim _ _ _ db h3 λ _ h4.
              subst (λ k. IsClosed j k draw.now (reset_password id dto context draw db).1)
                (locked_id id db found)
                (write_reset_password-IsClosed j current password_hash dto context draw db h4)

  -- After the password of a participant was reset, no session of the participant that was open is
  -- accepted again, whatever is requested, unless a session is opened under its id.
  pub reset_password-run_accounts :
      (j id : Key) (dto : ResetPasswordDto) (context : OperationContext) (draw : ResetDraw)
      (t : Date) (qs : List AccountRequest) (db : Db) {r : TemporaryPassword}
      → (reset_password id dto context draw db).0 ≡ ok r
      → draw.now ≤ t
      → All (Opens (λ k. k ≢ j)) qs
      → find_valid_session_with_user j id t
          (run_accounts qs (reset_password id dto context draw db).1)
        ≡ none
  reset_password-run_accounts j id dto context draw t qs db h le may =
      IsClosed-invalid j id draw.now t _ le (
        run_accounts-IsClosed j id draw.now qs (reset_password id dto context draw db).1 may
          (reset_password-IsClosed j id dto context draw db h))
