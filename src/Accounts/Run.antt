-- ===== src/Accounts/Run.antt =====
-- An invariant that is stable under the statements holds after any list of requests, if the four
-- requests that may make an generals_in general unavailable keep it.
use semcomp2026_gameficacao.Prelude.{Bool, true, false, Option, List, [], ◌∷◌, All, if◌then◌else◌}
use semcomp2026_gameficacao.Database.{Prisma}
use semcomp2026_gameficacao.Database.Schema.{Key, Date, User}
use semcomp2026_gameficacao.Database.Failure.{conflict, last_active_general_admin}
use semcomp2026_gameficacao.Database.Tx.{Db, ◌>>◌, pure, reject_if}
use semcomp2026_gameficacao.Text.{Text}
use semcomp2026_gameficacao.Audit.Contract.{OperationContext}
use semcomp2026_gameficacao.ClaimCodes.Repository.{same_bool}
use semcomp2026_gameficacao.Accounts.Runtime.{Runtime}
use semcomp2026_gameficacao.Accounts.Sessions.{update_users}
use semcomp2026_gameficacao.Accounts.Operators.Rows.{AdminOperator}
use semcomp2026_gameficacao.Accounts.Operators.Policy
use semcomp2026_gameficacao.Accounts.Operators.Service.{
  write_update, update_tx, update_details, write_status, update_operator_status_tx,
  update_operator_status, reset_activation_tx, reset_activation,
}
use semcomp2026_gameficacao.Accounts.Operators.Policy.{
  UpdateOperatorDto, UpdateOperatorStatusDto, Drawn, has_operator_changes, changes_of,
  is_last_general, to_response,
}
use semcomp2026_gameficacao.Accounts.Participants.{
  UpdateParticipantStatusDto, write_participant_status, update_participant_status_tx,
  update_participant_status,
}
use semcomp2026_gameficacao.Accounts.Requests.{
  AccountRequest, sign_up, sign_in, sign_in_admin, beat, finish, change_password, expire, retire,
  invite_operator, change_operator, switch_operator, renew_operator, activate_operator,
  reset_participant, switch_participant, serve_account, run_accounts,
}
use semcomp2026_gameficacao.Accounts.Keeps.{
  Keeps, >>=-Keeps, pure-Keeps, reads-Keeps, or_throw-Keeps, reject_if-Keeps,
  with_transaction-Keeps, rethrow-Keeps,
}
use semcomp2026_gameficacao.Accounts.Stable.{Stable}
use semcomp2026_gameficacao.Accounts.Steps.{
  register-Keeps, login-Keeps, admin_login-Keeps, heartbeat-Keeps, end-Keeps, expire_sessions-Keeps,
  delete_retained-Keeps, revoke_open_sessions-Keeps,
}
use semcomp2026_gameficacao.Accounts.Changes.{change_required_password-Keeps, reset_password-Keeps}
use semcomp2026_gameficacao.Accounts.OperatorSteps.{
  lock_operator-Keeps, create-Keeps, activate-Keeps, write_update-Carries, write_status-Carries,
  write_reset-Carries, write_participant_status-Carries, revoke_pending_activations-Keeps,
}

-- The session that a request opens has an id that it may have.
abbrev pub Opens : (Key → Type 0) → AccountRequest → Type 0
Opens MayOpen (sign_up dto s) = MayOpen s.session_id
Opens MayOpen (sign_in dto s) = MayOpen s.session_id
Opens MayOpen (sign_in_admin dto s) = MayOpen s.session_id
Opens MayOpen _ = Unit

pub record Guarded ⦃P : Prisma⦄ ⦃X : Runtime⦄ (I : Db → Type 0) : Type 0 where
  pub update_kept :
      (id : Key) (dto : UpdateOperatorDto) (context : OperationContext) (drawn : Drawn) (db : Db)
      → I db
      → I (update_details id dto context drawn db).1
  pub switch_kept :
      (id : Key) (dto : UpdateOperatorStatusDto) (context : OperationContext) (drawn : Drawn)
      (db : Db)
      → I db
      → I (update_operator_status id dto context drawn db).1
  pub reset_kept :
      (id : Key) (reason : Text) (context : OperationContext) (drawn : Drawn) (db : Db)
      → I db
      → I (reset_activation id reason context drawn db).1
  pub participant_kept :
      (id : Key) (dto : UpdateParticipantStatusDto) (context : OperationContext)
      (audit_event_id : Key) (now : Date) (db : Db)
      → I db
      → I (update_participant_status id dto context audit_event_id now db).1

module _ ⦃P : Prisma⦄ ⦃X : Runtime⦄ (I : Db → Type 0) {MayOpen : Key → Type 0}
    (stable : Stable I MayOpen) where
  pub serve_account-Keeps :
      (guarded : Guarded I) (q : AccountRequest) (db : Db)
      → Opens MayOpen q
      → I db
      → I (serve_account q db)
  serve_account-Keeps guarded (sign_up dto s) db may i = register-Keeps I stable dto s db may i
  serve_account-Keeps guarded (sign_in dto s) db may i = login-Keeps I stable dto s db may i
  serve_account-Keeps guarded (sign_in_admin dto s) db may i =
      admin_login-Keeps I stable dto s db may i
  serve_account-Keeps guarded (beat session_id user_id now) db may i =
      heartbeat-Keeps I stable session_id user_id now db i
  serve_account-Keeps guarded (finish session_id user_id now reason) db may i =
      end-Keeps I stable session_id user_id now reason db i
  serve_account-Keeps guarded (change_password participant_id session_id password s) db may i =
      change_required_password-Keeps I stable participant_id session_id password s db i
  serve_account-Keeps guarded (expire now) db may i = expire_sessions-Keeps I stable now db i
  serve_account-Keeps guarded (retire now) db may i = delete_retained-Keeps I stable now db i
  serve_account-Keeps guarded (invite_operator dto context drawn) db may i =
      create-Keeps I stable dto context drawn db i
  serve_account-Keeps guarded (change_operator id dto context drawn) db may i =
      guarded.update_kept id dto context drawn db i
  serve_account-Keeps guarded (switch_operator id dto context drawn) db may i =
      guarded.switch_kept id dto context drawn db i
  serve_account-Keeps guarded (renew_operator id reason context drawn) db may i =
      guarded.reset_kept id reason context drawn db i
  serve_account-Keeps guarded (activate_operator dto request_id drawn) db may i =
      activate-Keeps I stable dto request_id drawn db i
  serve_account-Keeps guarded (reset_participant id dto context draw) db may i =
      reset_password-Keeps I stable id dto context draw db i
  serve_account-Keeps guarded (switch_participant id dto context audit_event_id now) db may i =
      guarded.participant_kept id dto context audit_event_id now db i

  pub run_accounts-Keeps :
      (guarded : Guarded I) (qs : List AccountRequest) (db : Db)
      → All (Opens MayOpen) qs
      → I db
      → I (run_accounts qs db)
  run_accounts-Keeps guarded [] db may i = i
  run_accounts-Keeps guarded (q ∷ qs) db may i =
      run_accounts-Keeps guarded qs (serve_account q db) may.1
        (serve_account-Keeps guarded q db may.0 i)

  -- For an invariant that does not speak of users.
  module _ (any_user : (w : User → Bool) (f : User → User) → Keeps I (update_users w f)) where
    update-Keeps :
        (id : Key) (dto : UpdateOperatorDto) (context : OperationContext) (drawn : Drawn) (db : Db)
        → I db
        → I (update_details id dto context drawn db).1
    unfolding update_details update_tx
    update-Keeps id dto context drawn db i =
        rethrow-Keeps I _ (update_tx id dto context drawn) db i (
          >>=-Keeps I _ _ (reads-Keeps I _) λ generals.
            >>=-Keeps I _ _ (lock_operator-Keeps I id drawn.now) λ (found : Option AdminOperator).
              >>=-Keeps I _ _ (or_throw-Keeps I found _) λ (current : AdminOperator).
                elim (has_operator_changes current (changes_of dto))
                  as (λ b. Keeps I (
                    if b
                    then reject_if
                        (is_last_general current (Policy.profile_change dto.admin_profile) generals)
                        (conflict last_active_general_admin)
                      >> write_update current dto context drawn
                    else pure (to_response current))) [
                      | true ↦ >>=-Keeps I _ _ (reject_if-Keeps I _ _) λ _.
                          write_update-Carries I stable I current dto context drawn (any_user _ _)
                      | false ↦ pure-Keeps I (to_response current)
                    ])

    switch-Keeps :
        (id : Key) (dto : UpdateOperatorStatusDto) (context : OperationContext) (drawn : Drawn)
        (db : Db)
        → I db
        → I (update_operator_status id dto context drawn db).1
    unfolding update_operator_status update_operator_status_tx
    switch-Keeps id dto context drawn db i =
        rethrow-Keeps I _ (update_operator_status_tx id dto context drawn) db i (
          >>=-Keeps I _ _ (reads-Keeps I _) λ generals.
            >>=-Keeps I _ _ (lock_operator-Keeps I id drawn.now) λ (found : Option AdminOperator).
              >>=-Keeps I _ _ (or_throw-Keeps I found _) λ (current : AdminOperator).
                elim (same_bool current.user.is_active dto.is_active)
                  as (λ b. Keeps I (
                    if b
                    then pure (to_response current)
                    else reject_if
                        (is_last_general current (Policy.status_change dto.is_active) generals)
                        (conflict last_active_general_admin)
                      >> write_status current dto context drawn)) [
                        | true ↦ pure-Keeps I (to_response current)
                        | false ↦ >>=-Keeps I _ _ (reject_if-Keeps I _ _) λ _.
                            write_status-Carries I stable I current dto context drawn (any_user _ _)
                      ])

    reset-Keeps :
        (id : Key) (reason : Text) (context : OperationContext) (drawn : Drawn) (db : Db)
        → I db
        → I (reset_activation id reason context drawn db).1
    unfolding reset_activation reset_activation_tx
    reset-Keeps id reason context drawn db i =
        rethrow-Keeps I _ (reset_activation_tx id reason context drawn) db i (
          >>=-Keeps I _ _ (reads-Keeps I _) λ generals.
            >>=-Keeps I _ _ (lock_operator-Keeps I id drawn.now) λ (found : Option AdminOperator).
              >>=-Keeps I _ _ (or_throw-Keeps I found _) λ (current : AdminOperator).
                >>=-Keeps I _ _ (reject_if-Keeps I _ _) λ _.
                  >>=-Keeps I _ _ (or_throw-Keeps I _ _) λ code_hash.
                    >>=-Keeps I _ _
                      (write_reset-Carries I stable I current code_hash reason context drawn
                        (revoke_open_sessions-Keeps I stable current.user.id drawn.now)
                        (revoke_pending_activations-Keeps I stable current.user.id drawn.now)
                        (any_user _ _))
                      λ after. pure-Keeps I _)

    participant-Keeps :
        (id : Key) (dto : UpdateParticipantStatusDto) (context : OperationContext)
        (audit_event_id : Key) (now : Date) (db : Db)
        → I db
        → I (update_participant_status id dto context audit_event_id now db).1
    unfolding update_participant_status update_participant_status_tx
    participant-Keeps id dto context audit_event_id now db i =
        with_transaction-Keeps I (update_participant_status_tx id dto context audit_event_id now) db
          i
          (>>=-Keeps I _ _ (reads-Keeps I _) λ found.
            >>=-Keeps I _ _ (or_throw-Keeps I found _) λ (current : User).
              elim (same_bool current.is_active dto.is_active)
                as (λ b. Keeps I (
                  if b
                  then pure tt
                  else write_participant_status current dto context audit_event_id now)) [
                    | true ↦ pure-Keeps I tt
                    | false ↦
                        write_participant_status-Carries I stable I current dto context
                          audit_event_id now (any_user _ _)
                  ])

    pub any_user-Guarded : Guarded I
    any_user-Guarded = record {
      update_kept = update-Keeps;
      switch_kept = switch-Keeps;
      reset_kept = reset-Keeps;
      participant_kept = participant-Keeps;
    }
