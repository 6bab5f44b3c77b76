-- ===== src/Accounts/PasswordChange.antt =====
-- presence/sessions.repository.ts: completeParticipantPasswordChange.
use semcomp2026_gameficacao.Prelude.{ℕ, Bool, false, ◌&&◌, Option, none, some, ◌==◌, if◌then◌else◌}
use semcomp2026_gameficacao.Text.{Text, text_eq}
use semcomp2026_gameficacao.Database.{Prisma}
use semcomp2026_gameficacao.Database.Schema.{Key, Date, User, participant}
use semcomp2026_gameficacao.Database.Tx.{Db, Tx, ◌>>=◌, pure, reads}
use semcomp2026_gameficacao.Accounts.Passwords.{same_role, is_after}
use semcomp2026_gameficacao.Accounts.Sessions.{find_user, update_users, revoke_open_sessions}

pub record PasswordChange : Type 0 where
  pub participant_id : Key
  pub expected_password_hash : Text
  pub new_password_hash : Text
  pub changed_at : Date

abbrev pub is_hash : Option Text → Text → Bool
is_hash none digest = false
is_hash (some old) digest = text_eq old digest

-- What `completeParticipantPasswordChange` asks of the locked row.
abbrev pub can_complete : PasswordChange → User → Bool
can_complete change u =
    same_role u.role participant
    && is_hash u.password_hash change.expected_password_hash
    && u.password_reset_required
    && is_after u.password_reset_expires_at change.changed_at

abbrev pub with_new_password : PasswordChange → User → User
with_new_password change u = record u {
  password_hash = some change.new_password_hash;
  password_changed_at = some change.changed_at;
  password_reset_required = false;
  password_reset_expires_at = none;
}

module _ ⦃P : Prisma⦄ where
  abbrev pub find_participant_password_reset : Key → Db → Option User
  find_participant_password_reset participant_id =
      find_user (λ u. u.id == participant_id && same_role u.role participant)

  -- After the checks of `completeParticipantPasswordChange`.
  unfoldable pub write_password_change : PasswordChange → Tx (Option ℕ)
  unfolding update_users revoke_open_sessions
  write_password_change change = do
    _ ← update_users (λ u. u.id == change.participant_id) (with_new_password change)
    sessions_revoked ← revoke_open_sessions change.participant_id change.changed_at
    pure (some sessions_revoked)

  abbrev pub complete_with : PasswordChange → Option User → Tx (Option ℕ)
  complete_with change none = pure none
  complete_with change (some current) =
      if can_complete change current then write_password_change change else pure none

  -- The number of revoked sessions, and nothing where the status is `invalid`.
  unfoldable pub complete_participant_password_change : PasswordChange → Tx (Option ℕ)
  unfolding write_password_change
  complete_participant_password_change change = do
    current ← reads (find_participant_password_reset change.participant_id)
    complete_with change current
