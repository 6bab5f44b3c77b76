-- ===== src/Accounts/Operators/Policy.antt =====
-- admin/admin-operators.service.ts: what the requests on operators carry, and what their services
-- decide without the database.
use semcomp2026_gameficacao.Prelude.{
  ℕ, Bool, true, false, not, ◌&&◌, ◌||◌, Option, none, some, List, [], ◌∷◌, filter, leb, length,
  ◌==◌, if◌then◌else◌,
}
use semcomp2026_gameficacao.Text.{Text, text_eq, trim}
use semcomp2026_gameficacao.Database.Schema.{Key, Date, User, AdminProfile, general}
use semcomp2026_gameficacao.Ledger.{is_some}
use semcomp2026_gameficacao.Audit.{AuditInput}
use semcomp2026_gameficacao.Audit.Contract
use semcomp2026_gameficacao.Audit.Contract.{
  AuditOperation, AuditActor, administrator, system, Snapshot, AuditMetadata, no_metadata,
  OperationContext, admin_operator_created, admin_operator_updated, admin_operator_status_changed,
  admin_operator_activation_reset, admin_operator_activated,
}
use semcomp2026_gameficacao.Accounts.Runtime.{Runtime}
use semcomp2026_gameficacao.Accounts.Operators.Rows.{
  AdminOperator, UpdateOperatorInput, same_profile,
}

pub data OperatorState : Type 0 where
  pending_activation active inactive : OperatorState

abbrev pub to_operator_state : User → OperatorState
to_operator_state u =
    if u.is_active then if is_some u.password_hash then active else pending_activation else inactive

pub record CreateOperatorDto : Type 0 where
  pub name : Text
  pub cpf : Text
  pub email : Text
  pub admin_profile : AdminProfile
  pub reason : Text

pub record UpdateOperatorDto : Type 0 where
  pub name : Option Text
  pub cpf : Option Text
  pub email : Option Text
  pub admin_profile : Option AdminProfile
  pub reason : Text

pub record UpdateOperatorStatusDto : Type 0 where
  pub is_active : Bool
  pub reason : Text

pub record ActivateDto : Type 0 where
  pub code : Text
  pub cpf : Text
  pub email : Text
  pub password : Text
  pub password_confirmation : Text

-- What one request reads from the runtime: ids, a salt, random bytes and the clock.
pub record Drawn : Type 0 where
  pub user_id : Key
  pub activation_id : Key
  pub audit_event_id : Key
  pub salt : Key
  pub bytes : List ℕ
  pub now : Date

-- `AdminOperatorResponseDto`, with the record that it shows
pub record OperatorResponse : Type 0 where
  pub operator : AdminOperator
  pub state : OperatorState

abbrev pub to_response : AdminOperator → OperatorResponse
to_response o = record { operator = o; state = to_operator_state o.user }

pub record ActivationResponse : Type 0 where
  pub operator : OperatorResponse
  pub activation_code : Text
  pub expires_at : Date

-- `normalizeCpf`
unfoldable pub normalize_cpf : Text → Text
normalize_cpf cpf = filter (λ c. leb b'0' c && leb c b'9') cpf

abbrev pub operator_snapshot : AdminOperator → Snapshot
operator_snapshot o =
    Contract.admin_operator o.user.id o.user.name o.admin_profile o.user.is_active o.user.created_at

abbrev pub operator_audit :
    AuditActor
    → AuditOperation
    → Text
    → (before : Option Snapshot) → (after : AdminOperator) → AuditMetadata
    → AuditInput
operator_audit actor operation reason before after metadata = record {
  actor = actor;
  operation = operation;
  entity_type = Contract.AuditEntityType.admin_operator;
  entity_id = after.user.id;
  participant_id = none;
  reason = reason;
  before = before;
  after = some (operator_snapshot after);
  metadata = metadata;
}

abbrev pub revoked_metadata : ℕ → AuditMetadata
revoked_metadata count = record no_metadata { sessions_revoked = some count }

-- `requestedChange` of `assertCanRemoveAvailableGeneral`
pub data RequestedChange : Type 0 where
  to_profile : AdminProfile → RequestedChange
  deactivation reset unchanged : RequestedChange

abbrev pub removes_availability : RequestedChange → Bool
removes_availability (to_profile p) = not (same_profile p general)
removes_availability deactivation = true
removes_availability reset = true
removes_availability unchanged = false

abbrev pub is_only : Key → List User → Bool
is_only id [] = false
is_only id (u ∷ generals) = length (u ∷ generals) == 1 && u.id == id

-- The condition under which `assertCanRemoveAvailableGeneral` throws.
abbrev pub is_last_general : AdminOperator → RequestedChange → List User → Bool
is_last_general current change available_generals =
    current.user.is_active
    && is_some current.user.password_hash
    && same_profile current.admin_profile general
    && removes_availability change
    && is_only current.user.id available_generals

abbrev pub profile_change : Option AdminProfile → RequestedChange
profile_change none = unchanged
profile_change (some p) = to_profile p

abbrev trimmed_text : Option Text → Option Text
trimmed_text none = none
trimmed_text (some s) = some (trim s)

abbrev differs : Option Text → Text → Bool
differs none old = false
differs (some new) old = not (text_eq new old)

abbrev differs_profile : Option AdminProfile → AdminProfile → Bool
differs_profile none old = false
differs_profile (some new) old = not (same_profile new old)

-- `hasOperatorChanges`
unfoldable pub has_operator_changes : AdminOperator → UpdateOperatorInput → Bool
has_operator_changes current changes =
    differs changes.name current.user.name
    || differs changes.cpf current.user.cpf
    || differs changes.email current.user.email
    || differs_profile changes.admin_profile current.admin_profile

abbrev pub status_change : Bool → RequestedChange
status_change true = unchanged
status_change false = deactivation

abbrev pub only_status : Bool → UpdateOperatorInput
only_status is_active = record {
  name = none;
  cpf = none;
  email = none;
  admin_profile = none;
  is_active = some is_active;
}

module _ ⦃X : Runtime⦄ where
  abbrev pub normalized_email : Text → Text
  normalized_email email = X.to_lower_case (trim email)

  abbrev email_change : Option Text → Option Text
  email_change none = none
  email_change (some email) = some (normalized_email email)

  abbrev cpf_change : Option Text → Option Text
  cpf_change none = none
  cpf_change (some cpf) = some (normalize_cpf cpf)

  -- The `changes` of `update`.
  unfoldable pub changes_of : UpdateOperatorDto → UpdateOperatorInput
  unfolding trim normalize_cpf
  changes_of dto = record {
    name = trimmed_text dto.name;
    cpf = cpf_change dto.cpf;
    email = email_change dto.email;
    admin_profile = dto.admin_profile;
    is_active = none;
  }
