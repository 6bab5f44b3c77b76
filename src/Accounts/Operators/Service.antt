-- ===== src/Accounts/Operators/Service.antt =====
-- admin/admin-operators.service.ts: create, update, updateStatus, resetActivation and activate.
use semcomp2026_gameficacao.Prelude.{◌+◌, not, ◌&&◌, Option, none, some, if◌then◌else◌}
use semcomp2026_gameficacao.Text.{Text, text, text_eq, trim}
use semcomp2026_gameficacao.Database.{Prisma}
use semcomp2026_gameficacao.Database.Schema.{Key}
use semcomp2026_gameficacao.Database.Failure.{
  Result, bad_request, conflict, not_found, unauthorized, fault, translate_conflict,
  operator_not_found, operator_not_created, operator_not_updated, operator_status_not_changed,
  operator_not_reset, last_active_general_admin, activation_invalid, invalid_admin_password,
}
use semcomp2026_gameficacao.Database.Tx.{
  Db, Tx, ◌>>=◌, ◌>>◌, pure, reads, or_throw, reject_if, with_transaction, rethrow,
}
use semcomp2026_gameficacao.Audit.{record_audit}
use semcomp2026_gameficacao.Audit.Contract.{
  administrator, system, no_metadata, OperationContext, admin_operator_created,
  admin_operator_updated, admin_operator_status_changed, admin_operator_activation_reset,
  admin_operator_activated,
}
use semcomp2026_gameficacao.ClaimCodes.Repository.{same_bool}
use semcomp2026_gameficacao.Accounts.Runtime.{Runtime}
use semcomp2026_gameficacao.Accounts.Passwords.{validate_admin_password, hash_admin_password}
use semcomp2026_gameficacao.Accounts.Sessions.{revoke_open_sessions, revoke_if_off}
use semcomp2026_gameficacao.Accounts.Codes.{
  admin_activation_ttl_ms, create_admin_activation_code, hash_admin_activation_code,
  normalize_admin_activation_code, hash_given_code,
}
use semcomp2026_gameficacao.Accounts.Operators.Repository.{
  lock_available_generals, lock_operator, create_operator, update_operator,
  revoke_pending_activations, reset_operator, consume_activation,
}
use semcomp2026_gameficacao.Accounts.Operators.Rows.{AdminOperator}
use semcomp2026_gameficacao.Accounts.Operators.Policy.{
  ActivateDto, ActivationResponse, CreateOperatorDto, Drawn, OperatorResponse, UpdateOperatorDto,
  UpdateOperatorStatusDto, changes_of, has_operator_changes, is_last_general, normalize_cpf,
  normalized_email, only_status, operator_audit, operator_snapshot, profile_change, reset,
  revoked_metadata, status_change, to_response,
}

module _ ⦃P : Prisma⦄ ⦃X : Runtime⦄ where
  unfoldable pub create_tx : CreateOperatorDto → OperationContext → Drawn → Tx ActivationResponse
  unfolding create_operator hash_admin_activation_code create_admin_activation_code record_audit
      trim normalize_cpf
  create_tx dto context drawn = do
    let code = create_admin_activation_code drawn.bytes
    let expires_at = drawn.now + admin_activation_ttl_ms
    code_hash ← or_throw (hash_admin_activation_code code) fault
    operator ← create_operator (record {
      id = drawn.user_id;
      activation_id = drawn.activation_id;
      name = trim dto.name;
      cpf = normalize_cpf dto.cpf;
      email = normalized_email dto.email;
      admin_profile = dto.admin_profile;
      code_hash = code_hash;
      expires_at = expires_at;
      created_by_admin_id = context.actor_admin_id;
      now = drawn.now;
    })
    _ ← record_audit drawn.audit_event_id drawn.now (
        operator_audit (administrator context) admin_operator_created dto.reason none operator
          no_metadata)
    pure (record {
      operator = to_response operator;
      activation_code = code;
      expires_at = expires_at;
    })

  -- After `assertCanRemoveAvailableGeneral` of `update`.
  unfoldable pub write_update :
      AdminOperator → UpdateOperatorDto → OperationContext → Drawn → Tx OperatorResponse
  unfolding changes_of update_operator revoke_open_sessions record_audit
  write_update current dto context drawn = do
    after ← update_operator current.user.id (changes_of dto) drawn.now
    sessions_revoked ← revoke_open_sessions current.user.id drawn.now
    _ ← record_audit drawn.audit_event_id drawn.now (
        operator_audit (administrator context) admin_operator_updated dto.reason
          (some (operator_snapshot current)) after (revoked_metadata sessions_revoked))
    pure (to_response after)

  unfoldable pub update_tx :
      Key → UpdateOperatorDto → OperationContext → Drawn → Tx OperatorResponse
  unfolding changes_of has_operator_changes lock_operator write_update
  update_tx id dto context drawn = do
    available_generals ← reads lock_available_generals
    found ← lock_operator id drawn.now
    current ← or_throw found (not_found operator_not_found)
    if has_operator_changes current (changes_of dto)
        then reject_if
            (is_last_general current (profile_change dto.admin_profile) available_generals)
            (conflict last_active_general_admin)
          >> write_update current dto context drawn
        else pure (to_response current)

  -- After `assertCanRemoveAvailableGeneral` of `updateStatus`.
  unfoldable pub write_status :
      AdminOperator → UpdateOperatorStatusDto → OperationContext → Drawn → Tx OperatorResponse
  unfolding update_operator revoke_open_sessions record_audit
  write_status current dto context drawn = do
    after ← update_operator current.user.id (only_status dto.is_active) drawn.now
    sessions_revoked ← revoke_if_off dto.is_active current.user.id drawn.now
    _ ← record_audit drawn.audit_event_id drawn.now (
        operator_audit (administrator context) admin_operator_status_changed dto.reason
          (some (operator_snapshot current)) after (revoked_metadata sessions_revoked))
    pure (to_response after)

  unfoldable pub update_operator_status_tx :
      Key → UpdateOperatorStatusDto → OperationContext → Drawn → Tx OperatorResponse
  unfolding lock_operator write_status
  update_operator_status_tx id dto context drawn = do
    available_generals ← reads lock_available_generals
    found ← lock_operator id drawn.now
    current ← or_throw found (not_found operator_not_found)
    if same_bool current.user.is_active dto.is_active
        then pure (to_response current)
        else reject_if (is_last_general current (status_change dto.is_active) available_generals)
            (conflict last_active_general_admin)
          >> write_status current dto context drawn

  -- After `assertCanRemoveAvailableGeneral` of `resetActivation`.
  unfoldable pub write_reset :
      AdminOperator → Text → (reason : Text) → OperationContext → Drawn → Tx AdminOperator
  unfolding revoke_open_sessions revoke_pending_activations reset_operator record_audit
  write_reset current code_hash reason context drawn = do
    sessions_revoked ← revoke_open_sessions current.user.id drawn.now
    _ ← revoke_pending_activations current.user.id drawn.now
    after ← reset_operator (record {
      id = current.user.id;
      activation_id = drawn.activation_id;
      code_hash = code_hash;
      expires_at = drawn.now + admin_activation_ttl_ms;
      created_by_admin_id = context.actor_admin_id;
      now = drawn.now;
    })
    _ ← record_audit drawn.audit_event_id drawn.now (
        operator_audit (administrator context) admin_operator_activation_reset reason
          (some (operator_snapshot current)) after (revoked_metadata sessions_revoked))
    pure after

  unfoldable pub reset_activation_tx :
      Key → (reason : Text) → OperationContext → Drawn → Tx ActivationResponse
  unfolding lock_operator write_reset create_admin_activation_code hash_admin_activation_code
  reset_activation_tx id reason context drawn = do
    let code = create_admin_activation_code drawn.bytes
    available_generals ← reads lock_available_generals
    found ← lock_operator id drawn.now
    current ← or_throw found (not_found operator_not_found)
    reject_if (is_last_general current reset available_generals)
        (conflict last_active_general_admin)
    code_hash ← or_throw (hash_admin_activation_code code) fault
    after ← write_reset current code_hash reason context drawn
    pure (record {
      operator = to_response after;
      activation_code = code;
      expires_at = drawn.now + admin_activation_ttl_ms;
    })

  abbrev activation_reason : Text
  activation_reason = text "Ativacao administrativa concluida"

  -- No id is given where the request's is missing or blank.
  unfoldable pub activate_tx : ActivateDto → (request_id : Option Key) → Drawn → Tx (Unit {0})
  unfolding validate_admin_password hash_admin_password hash_given_code
      normalize_admin_activation_code trim normalize_cpf consume_activation record_audit
  activate_tx dto given_id drawn = do
    request_id ← or_throw given_id fault
    reject_if
        (not
          (validate_admin_password dto.password && text_eq dto.password dto.password_confirmation))
        (bad_request invalid_admin_password)
    password_hash ←
        or_throw (hash_admin_password drawn.salt dto.password) (bad_request invalid_admin_password)
    code_hash ←
        or_throw (hash_given_code (normalize_admin_activation_code dto.code))
          (unauthorized activation_invalid)
    result ← consume_activation (record {
      code_hash = code_hash;
      cpf = normalize_cpf dto.cpf;
      email = normalized_email dto.email;
      password_hash = password_hash;
      now = drawn.now;
    })
    both ← or_throw result (unauthorized activation_invalid)
    _ ← record_audit drawn.audit_event_id drawn.now (
        operator_audit (system request_id) admin_operator_activated activation_reason
          (some (operator_snapshot both.0)) both.1 no_metadata)
    pure tt

  unfoldable pub create :
      CreateOperatorDto → OperationContext → Drawn → Db → Result ActivationResponse × Db
  unfolding create_tx
  create dto context drawn db =
      rethrow (translate_conflict operator_not_created)
        (with_transaction (create_tx dto context drawn) db)

  unfoldable pub update_details :
      Key → UpdateOperatorDto → OperationContext → Drawn → Db → Result OperatorResponse × Db
  unfolding update_tx
  update_details id dto context drawn db =
      rethrow (translate_conflict operator_not_updated)
        (with_transaction (update_tx id dto context drawn) db)

  unfoldable pub update_operator_status :
      Key → UpdateOperatorStatusDto → OperationContext → Drawn → Db → Result OperatorResponse × Db
  unfolding update_operator_status_tx
  update_operator_status id dto context drawn db =
      rethrow (translate_conflict operator_status_not_changed)
        (with_transaction (update_operator_status_tx id dto context drawn) db)

  unfoldable pub reset_activation :
      Key → (reason : Text) → OperationContext → Drawn → Db → Result ActivationResponse × Db
  unfolding reset_activation_tx
  reset_activation id reason context drawn db =
      rethrow (translate_conflict operator_not_reset)
        (with_transaction (reset_activation_tx id reason context drawn) db)

  unfoldable pub activate :
      ActivateDto → (request_id : Option Key) → Drawn → Db → Result (Unit {0}) × Db
  unfolding activate_tx
  activate dto request_id drawn = with_transaction (activate_tx dto request_id drawn)
