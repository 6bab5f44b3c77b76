-- ===== src/Accounts/LastGeneral.antt =====
-- The requests that may make an generals_in general administrator unavailable leave another one, and so
-- does every run of requests.
use semcomp2026_gameficacao.Prelude.{◌≡◌, refl, Bool, true, false, List, arith, if◌then◌else◌}
use semcomp2026_gameficacao.Text.{Text}
use semcomp2026_gameficacao.Database.{Prisma}
use semcomp2026_gameficacao.Database.Schema.{Key, Date, User}
use semcomp2026_gameficacao.Database.Failure.{
  conflict, not_found, last_active_general_admin, operator_not_found,
}
use semcomp2026_gameficacao.Database.Tx.{Db, ◌>>◌, pure, reject_if}
use semcomp2026_gameficacao.Audit.Contract.{OperationContext}
use semcomp2026_gameficacao.ClaimCodes.Repository.{same_bool}
use semcomp2026_gameficacao.Accounts.Runtime.{Runtime}
use semcomp2026_gameficacao.Accounts.Operators.Repository.{lock_available_generals}
use semcomp2026_gameficacao.Accounts.Operators.Rows.{
  AdminOperator, is_available_general, updated, without_password,
}
use semcomp2026_gameficacao.Accounts.Operators.Policy
use semcomp2026_gameficacao.Accounts.Operators.Service.{
  write_update, update_tx, update_details, write_status, update_operator_status_tx,
  update_operator_status, write_reset, reset_activation_tx, reset_activation,
}
use semcomp2026_gameficacao.Accounts.Operators.Policy.{
  UpdateOperatorDto, UpdateOperatorStatusDto, Drawn, RequestedChange, removes_availability, is_only,
  is_last_general, has_operator_changes, changes_of, to_response,
}
use semcomp2026_gameficacao.Accounts.Participants.{
  UpdateParticipantStatusDto, with_status, write_participant_status, update_participant_status_tx,
  update_participant_status,
}
use semcomp2026_gameficacao.Accounts.Requests.{AccountRequest, run_accounts}
use semcomp2026_gameficacao.Accounts.Keeps.{
  Holds, >>=-Carries, pure-Keeps, reads-Holds, or_throw-Holds, reject_if-Holds, Carries-Holds,
  rethrow-Holds, with_transaction-Holds,
}
use semcomp2026_gameficacao.Accounts.OperatorSteps.{
  write_update-Carries, write_status-Carries, write_reset-Carries, write_participant_status-Carries,
}
use semcomp2026_gameficacao.Accounts.KeepsGeneral.{
  HasGeneral, HasGeneral-Stable, SameUsers, changed-HasGeneral, FoundOperator,
}
use semcomp2026_gameficacao.Accounts.Run.{Guarded, run_accounts-Keeps}
use semcomp2026_gameficacao.Accounts.Spent.{All-open}
use semcomp2026_gameficacao.Accounts.Locked.{
  activations-SameUsers, is_participant_row, locked-Holds, only_general, participant_unavailable,
  sessions-SameUsers,
}

module _ ⦃P : Prisma⦄ ⦃X : Runtime⦄ where
  update_guard :
      (dto : UpdateOperatorDto) (id : Key) (db : Db) (o : AdminOperator) (generals : List User)
      → FoundOperator id db o
      → is_last_general o (Policy.profile_change dto.admin_profile) generals ≡ false
      → is_available_general o.user ≡ true
      → is_available_general (updated (changes_of dto) o.user) ≡ false
      → is_only o.user.id generals ≡ false
  unfolding changes_of
  update_guard dto id db o generals found kept mine gone =
      only_general id db o (Policy.profile_change dto.admin_profile) generals found kept mine
        (ground arith)

  update-HasGeneral :
      (id : Key) (dto : UpdateOperatorDto) (context : OperationContext) (drawn : Drawn) (db : Db)
      → HasGeneral db
      → HasGeneral (update_details id dto context drawn db).1
  unfolding update_details update_tx
  update-HasGeneral id dto context drawn db i =
      rethrow-Holds HasGeneral _ (update_tx id dto context drawn) db i (
        locked-Holds id drawn.now (not_found operator_not_found) _ db λ o found.
          elim (has_operator_changes o (changes_of dto))
            as (λ b. Holds HasGeneral (
              (if b
                  then reject_if
                      (is_last_general o (Policy.profile_change dto.admin_profile)
                        (lock_available_generals db))
                      (conflict last_active_general_admin)
                    >> write_update o dto context drawn
                  else pure (to_response o))
                db)) [
                  | true ↦ reject_if-Holds HasGeneral _ _ _ db λ kept.
                      Carries-Holds HasGeneral (SameUsers db) (write_update o dto context drawn) db
                        (write_update-Carries HasGeneral HasGeneral-Stable (SameUsers db) o dto
                          context drawn
                          (changed-HasGeneral db _ (updated (changes_of dto)) i (found.row)
                            (λ u. refl)
                            (update_guard dto id db o (lock_available_generals db) found kept)))
                        refl
                  | false ↦
                      Carries-Holds HasGeneral HasGeneral _ db
                        (pure-Keeps HasGeneral (to_response o)) i
                ])

  status_guard :
      (is_active : Bool) (id : Key) (db : Db) (o : AdminOperator) (generals : List User)
      → FoundOperator id db o
      → is_last_general o (Policy.status_change is_active) generals ≡ false
      → is_available_general o.user ≡ true
      → is_available_general (updated (Policy.only_status is_active) o.user) ≡ false
      → is_only o.user.id generals ≡ false
  status_guard true id db o generals found kept mine gone = absurd (ground arith)
  status_guard false id db o generals found kept mine gone =
      only_general id db o (Policy.status_change false) generals found kept mine refl

  switch-HasGeneral :
      (id : Key) (dto : UpdateOperatorStatusDto) (context : OperationContext) (drawn : Drawn)
      (db : Db)
      → HasGeneral db
      → HasGeneral (update_operator_status id dto context drawn db).1
  unfolding update_operator_status update_operator_status_tx
  switch-HasGeneral id dto context drawn db i =
      rethrow-Holds HasGeneral _ (update_operator_status_tx id dto context drawn) db i (
        locked-Holds id drawn.now (not_found operator_not_found) _ db λ o found.
          elim (same_bool o.user.is_active dto.is_active)
            as (λ b. Holds HasGeneral (
              (if b
                  then pure (to_response o)
                  else reject_if
                      (is_last_general o (Policy.status_change dto.is_active)
                        (lock_available_generals db))
                      (conflict last_active_general_admin)
                    >> write_status o dto context drawn)
                db)) [
                  | true ↦
                      Carries-Holds HasGeneral HasGeneral _ db
                        (pure-Keeps HasGeneral (to_response o)) i
                  | false ↦ reject_if-Holds HasGeneral _ _ _ db λ kept.
                      Carries-Holds HasGeneral (SameUsers db) (write_status o dto context drawn) db
                        (write_status-Carries HasGeneral HasGeneral-Stable (SameUsers db) o dto
                          context drawn
                          (changed-HasGeneral db _ (updated (Policy.only_status dto.is_active)) i
                            (found.row) (λ u. refl)
                            (status_guard dto.is_active id db o (lock_available_generals db) found
                              kept)))
                        refl
                ])

  reset-HasGeneral :
      (id : Key) (reason : Text) (context : OperationContext) (drawn : Drawn) (db : Db)
      → HasGeneral db
      → HasGeneral (reset_activation id reason context drawn db).1
  unfolding reset_activation reset_activation_tx
  reset-HasGeneral id reason context drawn db i =
      rethrow-Holds HasGeneral _ (reset_activation_tx id reason context drawn) db i (
        locked-Holds id drawn.now (not_found operator_not_found) _ db λ o found.
          reject_if-Holds HasGeneral _ _ _ db λ kept.
            or_throw-Holds HasGeneral _ _ _ db λ code_hash _.
              Carries-Holds HasGeneral (SameUsers db) _ db
                (>>=-Carries (SameUsers db) HasGeneral HasGeneral
                  (write_reset o code_hash reason context drawn) _
                  (write_reset-Carries HasGeneral HasGeneral-Stable (SameUsers db) o code_hash
                    reason context drawn (sessions-SameUsers db o.user.id drawn.now)
                    (activations-SameUsers db o.user.id drawn.now)
                    (changed-HasGeneral db _ without_password i (found.row) (λ u. refl)
                      λ mine gone.
                        only_general id db o Policy.reset (lock_available_generals db) found kept
                          mine refl))
                  λ after. pure-Keeps HasGeneral _)
                refl)

  participant-HasGeneral :
      (id : Key) (dto : UpdateParticipantStatusDto) (context : OperationContext)
      (audit_event_id : Key) (now : Date) (db : Db)
      → HasGeneral db
      → HasGeneral (update_participant_status id dto context audit_event_id now db).1
  unfolding update_participant_status update_participant_status_tx
  participant-HasGeneral id dto context audit_event_id now db i =
      with_transaction-Holds HasGeneral
        (update_participant_status_tx id dto context audit_event_id now) db i
        (reads-Holds HasGeneral _ _ db (
          or_throw-Holds HasGeneral _ _ _ db λ (current : User) found.
            elim (same_bool current.is_active dto.is_active)
              as (λ b. Holds HasGeneral (
                (if b
                    then pure tt
                    else write_participant_status current dto context audit_event_id now)
                  db)) [
                    | true ↦ Carries-Holds HasGeneral HasGeneral _ db (pure-Keeps HasGeneral tt) i
                    | false ↦
                        Carries-Holds HasGeneral (SameUsers db)
                          (write_participant_status current dto context audit_event_id now) db
                          (write_participant_status-Carries HasGeneral HasGeneral-Stable
                            (SameUsers db) current dto context audit_event_id now
                            (changed-HasGeneral db (is_participant_row id)
                              (with_status dto.is_active) i found (λ u. refl)
                              λ mine _. absurd (participant_unavailable id db found mine)))
                          refl
                  ]))

  HasGeneral-Guarded : Guarded HasGeneral
  HasGeneral-Guarded = record {
    update_kept = update-HasGeneral;
    switch_kept = switch-HasGeneral;
    reset_kept = reset-HasGeneral;
    participant_kept = participant-HasGeneral;
  }

  -- Where the ids of the users differ and an active general administrator has a password, one has
  -- after any requests on accounts.
  pub run_accounts-HasGeneral :
      (qs : List AccountRequest) (db : Db) → HasGeneral db → HasGeneral (run_accounts qs db)
  run_accounts-HasGeneral qs db i =
      run_accounts-Keeps HasGeneral HasGeneral-Stable HasGeneral-Guarded qs db (All-open qs) i
