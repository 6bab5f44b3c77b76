-- ===== src/Accounts/OperatorSteps.antt =====
-- Whatever is stable under the statements of the account services holds after the requests on
-- operators. Those that may make an generals_in general unavailable have lemmas of their own for an
-- invariant that does not speak of it.
use semcomp2026_gameficacao.Prelude.{
  refl, Bool, true, false, Option, none, some, arith, ◌==◌, if◌then◌else◌,
}
use semcomp2026_gameficacao.Database.{Prisma}
use semcomp2026_gameficacao.Database.Schema.{Key, Date, User, AdminActivation}
use semcomp2026_gameficacao.Database.Tx.{Db, pure}
use semcomp2026_gameficacao.Text.{Text}
use semcomp2026_gameficacao.Audit.Contract.{OperationContext}
use semcomp2026_gameficacao.Accounts.Runtime.{Runtime}
use semcomp2026_gameficacao.Accounts.Sessions.{update_users, revoke_open_sessions, revoke_if_off}
use semcomp2026_gameficacao.Accounts.Operators.Repository
use semcomp2026_gameficacao.Accounts.Operators.Repository.{
  find_operator_by_id, lock_operator, create_operator, update_user, update_operator,
  revoke_pending_activations, reset_operator, consume, consume_activation,
}
use semcomp2026_gameficacao.Accounts.Operators.Rows.{
  AdminOperator, ActivateOperatorInput, activated, updated, without_password, revoked_activation,
  used_activation, can_consume,
}
use semcomp2026_gameficacao.Accounts.Operators.Policy
use semcomp2026_gameficacao.Accounts.Operators.Service.{
  create_tx, create, write_update, write_status, write_reset, activate_tx, activate,
}
use semcomp2026_gameficacao.Accounts.Operators.Policy.{
  CreateOperatorDto, UpdateOperatorDto, UpdateOperatorStatusDto, ActivateDto, Drawn,
  has_operator_changes, changes_of, to_response,
}
use semcomp2026_gameficacao.Accounts.Participants
use semcomp2026_gameficacao.Accounts.Participants.{
  UpdateParticipantStatusDto, write_participant_status, update_participant_status_tx,
  update_participant_status,
}
use semcomp2026_gameficacao.Accounts.Keeps.{
  Carries, Keeps, >>=-Carries, >>=-Keeps, pure-Keeps, reads-Keeps, or_throw-Keeps, reject_if-Keeps,
  with_transaction-Keeps, rethrow-Keeps,
}
use semcomp2026_gameficacao.Accounts.Stable.{Spares, Settles, Stable, record_audit-Keeps}
use semcomp2026_gameficacao.Accounts.Steps.{revoke_open_sessions-Keeps}

pub activated-Spares : (input : ActivateOperatorInput) → Spares (activated input)
activated-Spares input u = (refl, λ h. ground arith)

pub revoked_activation-Settles : (now : Date) → Settles (revoked_activation now)
revoked_activation-Settles now a = (refl, λ h. absurd (ground arith))

pub used_activation-Settles : (now : Date) → Settles (used_activation now)
used_activation-Settles now a = (refl, λ h. absurd (ground arith))

module _ ⦃P : Prisma⦄ (I : Db → Type 0) where
  to_record_of-Keeps : (now : Date) (u : User) → Keeps I (Repository.to_record_of now u)
  to_record_of-Keeps now u = >>=-Keeps I _ _ (reads-Keeps I _) λ expires_at. or_throw-Keeps I _ _

  record_if_found-Keeps :
      (now : Date) (row : Option User) → Keeps I (Repository.record_if_found now row)
  record_if_found-Keeps now none = pure-Keeps I none
  record_if_found-Keeps now (some u) =
      >>=-Keeps I _ _ (to_record_of-Keeps now u) λ o. pure-Keeps I (some o)

  pub find_operator_by_id-Keeps : (id : Key) (now : Date) → Keeps I (find_operator_by_id id now)
  unfolding find_operator_by_id
  find_operator_by_id-Keeps id now =
      >>=-Keeps I _ _ (reads-Keeps I _) λ row. record_if_found-Keeps now row

  pub lock_operator-Keeps : (id : Key) (now : Date) → Keeps I (lock_operator id now)
  unfolding lock_operator
  lock_operator-Keeps id now = find_operator_by_id-Keeps id now

module _ ⦃P : Prisma⦄ (I J : Db → Type 0) where
  pub update_user-Carries :
      (id : Key) (data_of : User → User) (now : Date)
      → Carries I J (update_users (λ u. u.id == id) data_of)
      → Carries I J (update_user id data_of now)
  unfolding update_user
  update_user-Carries id data_of now moved =
      >>=-Carries I I J _ _ (reads-Keeps I _) λ (found : Option User).
        >>=-Carries I I J _ _ (or_throw-Keeps I found _) λ old.
          >>=-Carries I I J _ _ (reads-Keeps I _) λ taken.
            >>=-Carries I I J _ _ (reject_if-Keeps I taken _)
              λ _. >>=-Carries I J J _ _ moved λ _. to_record_of-Keeps J now (data_of old)

module _ ⦃P : Prisma⦄ ⦃X : Runtime⦄ (I : Db → Type 0) {MayOpen : Key → Type 0}
    (stable : Stable I MayOpen) where
  pub create-Keeps :
      (dto : CreateOperatorDto) (context : OperationContext) (drawn : Drawn) (db : Db)
      → I db
      → I (create dto context drawn db).1
  unfolding create create_tx create_operator
  create-Keeps dto context drawn db i = rethrow-Keeps I _ (create_tx dto context drawn) db i (
      >>=-Keeps I _ _ (or_throw-Keeps I _ _) λ code_hash.
        >>=-Keeps I _ _
          (>>=-Keeps I _ _ (stable.user_created _)
            λ _. >>=-Keeps I _ _ (stable.activation_created _) λ _. or_throw-Keeps I _ _)
          λ operator. >>=-Keeps I _ _ (record_audit-Keeps I stable _ _ _) λ _. pure-Keeps I _)

  consume-Keeps :
      (input : ActivateOperatorInput) (a : AdminActivation) (before : AdminOperator)
      → Keeps I (consume input a before)
  unfolding consume
  consume-Keeps input a before =
      >>=-Keeps I _ _ (stable.users_updated _ (activated input) (activated-Spares input)) λ _.
        >>=-Keeps I _ _
          (stable.activations_updated _ (used_activation input.now)
            (used_activation-Settles input.now))
          λ _.
            >>=-Keeps I _ _ (find_operator_by_id-Keeps I before.user.id input.now)
              λ found. pure-Keeps I _

  consume_by-Keeps :
      (input : ActivateOperatorInput) (a : AdminActivation) (current : Option AdminOperator)
      → Keeps I (Repository.consume_by input a current)
  consume_by-Keeps input a none = pure-Keeps I none
  consume_by-Keeps input a (some current) =
      elim (can_consume input a current.user)
        as (λ b. Keeps I (if b then consume input a current else pure none)) [
          | true ↦ consume-Keeps input a current
          | false ↦ pure-Keeps I none
        ]

  consume_found-Keeps :
      (input : ActivateOperatorInput) (found : Option AdminActivation)
      → Keeps I (Repository.consume_found input found)
  consume_found-Keeps input none = pure-Keeps I none
  consume_found-Keeps input (some a) =
      >>=-Keeps I _ _ (find_operator_by_id-Keeps I a.admin_user_id input.now)
        λ current. consume_by-Keeps input a current

  consume_activation-Keeps : (input : ActivateOperatorInput) → Keeps I (consume_activation input)
  unfolding consume_activation
  consume_activation-Keeps input =
      >>=-Keeps I _ _ (reads-Keeps I _) λ found. consume_found-Keeps input found

  pub activate-Keeps :
      (dto : ActivateDto) (request_id : Option Key) (drawn : Drawn) (db : Db)
      → I db
      → I (activate dto request_id drawn db).1
  unfolding activate activate_tx
  activate-Keeps dto request_id drawn db i =
      with_transaction-Keeps I (activate_tx dto request_id drawn) db i (
        >>=-Keeps I _ _ (or_throw-Keeps I request_id _) λ id.
          >>=-Keeps I _ _ (reject_if-Keeps I _ _) λ _.
            >>=-Keeps I _ _ (or_throw-Keeps I _ _) λ password_hash.
              >>=-Keeps I _ _ (or_throw-Keeps I _ _) λ code_hash.
                >>=-Keeps I _ _ (consume_activation-Keeps _)
                  λ (result : Option (AdminOperator × AdminOperator)).
                    >>=-Keeps I _ _ (or_throw-Keeps I result _) λ both.
                      >>=-Keeps I _ _ (record_audit-Keeps I stable _ _ _) λ _. pure-Keeps I tt)

  pub write_update-Carries :
      (J : Db → Type 0) (current : AdminOperator) (dto : UpdateOperatorDto)
      (context : OperationContext) (drawn : Drawn)
      → Carries J I (update_users (λ u. u.id == current.user.id) (updated (changes_of dto)))
      → Carries J I (write_update current dto context drawn)
  unfolding write_update update_operator
  write_update-Carries J current dto context drawn kept =
      >>=-Carries J I I _ _
        (update_user-Carries J I current.user.id (updated (changes_of dto)) drawn.now kept)
        λ after.
          >>=-Keeps I _ _ (revoke_open_sessions-Keeps I stable current.user.id drawn.now) λ count.
            >>=-Keeps I _ _ (record_audit-Keeps I stable _ _ _)
              λ _. pure-Keeps I (to_response after)

  revoke_if_off-Keeps :
      (is_active : Bool) (id : Key) (now : Date) → Keeps I (revoke_if_off is_active id now)
  revoke_if_off-Keeps true id now = pure-Keeps I 0
  revoke_if_off-Keeps false id now = revoke_open_sessions-Keeps I stable id now

  pub write_status-Carries :
      (J : Db → Type 0) (current : AdminOperator) (dto : UpdateOperatorStatusDto)
      (context : OperationContext) (drawn : Drawn)
      → Carries J I
          (update_users (λ u. u.id == current.user.id) (updated (Policy.only_status dto.is_active)))
      → Carries J I (write_status current dto context drawn)
  unfolding write_status update_operator
  write_status-Carries J current dto context drawn kept =
      >>=-Carries J I I _ _
        (update_user-Carries J I current.user.id (updated (Policy.only_status dto.is_active))
          drawn.now kept)
        λ after.
          >>=-Keeps I _ _ (revoke_if_off-Keeps dto.is_active current.user.id drawn.now) λ count.
            >>=-Keeps I _ _ (record_audit-Keeps I stable _ _ _)
              λ _. pure-Keeps I (to_response after)

  pub write_reset-Carries :
      (J : Db → Type 0) (current : AdminOperator) (code_hash reason : Text)
      (context : OperationContext) (drawn : Drawn)
      → Keeps J (revoke_open_sessions current.user.id drawn.now)
      → Keeps J (revoke_pending_activations current.user.id drawn.now)
      → Carries J I (update_users (λ u. u.id == current.user.id) without_password)
      → Carries J I (write_reset current code_hash reason context drawn)
  unfolding write_reset reset_operator
  write_reset-Carries J current code_hash reason context drawn sessions codes kept =
      >>=-Carries J J I _ _ sessions λ count. >>=-Carries J J I _ _ codes λ _.
        >>=-Carries J I I _ _
          (>>=-Carries J I I _ _ kept λ _. >>=-Keeps I _ _ (stable.activation_created _) λ _.
            >>=-Keeps I _ _ (find_operator_by_id-Keeps I current.user.id drawn.now)
              λ (found : Option AdminOperator). or_throw-Keeps I found _)
          λ after. >>=-Keeps I _ _ (record_audit-Keeps I stable _ _ _) λ _. pure-Keeps I after

  pub revoke_pending_activations-Keeps :
      (id : Key) (now : Date) → Keeps I (revoke_pending_activations id now)
  unfolding revoke_pending_activations
  revoke_pending_activations-Keeps id now =
      stable.activations_updated _ (revoked_activation now) (revoked_activation-Settles now)

  pub write_participant_status-Carries :
      (J : Db → Type 0) (current : User) (dto : UpdateParticipantStatusDto)
      (context : OperationContext) (audit_event_id : Key) (now : Date)
      → Carries J I
          (update_users (λ u. u.id == current.id) (Participants.with_status dto.is_active))
      → Carries J I (write_participant_status current dto context audit_event_id now)
  unfolding write_participant_status
  write_participant_status-Carries J current dto context audit_event_id now kept =
      >>=-Carries J I I _ _ kept λ _.
        >>=-Keeps I _ _ (revoke_if_off-Keeps dto.is_active current.id now)
          λ count. >>=-Keeps I _ _ (record_audit-Keeps I stable _ _ _) λ _. pure-Keeps I tt
