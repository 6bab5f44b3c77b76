-- ===== src/Accounts/Operators/Rows.antt =====
-- admin/admin-operators.repository.ts: the rows of operators and activations, and their changes.
use semcomp2026_gameficacao.Prelude.{
  pos, Bool, true, false, not, ◌&&◌, Option, none, some, List, [], ◌∷◌, leb, ltb, ◌==◌,
  if◌then◌else◌,
}
use semcomp2026_gameficacao.Text.{Text, text_eq}
use semcomp2026_gameficacao.Database.Schema.{
  Key, Date, User, admin, AdminProfile, general, shop, activities, AdminActivation,
}
use semcomp2026_gameficacao.Ledger.{is_some}
use semcomp2026_gameficacao.Accounts.Passwords.{same_role}

-- `AdminOperatorRecord`: a row of an administrator with a profile, and the end of its pending code.
pub record AdminOperator : Type 0 where
  pub user : User
  pub admin_profile : AdminProfile
  pub activation_expires_at : Option Date

pub record CreateOperatorInput : Type 0 where
  pub id : Key
  pub activation_id : Key
  pub name : Text
  pub cpf : Text
  pub email : Text
  pub admin_profile : AdminProfile
  pub code_hash : Text
  pub expires_at : Date
  pub created_by_admin_id : Key
  pub now : Date

pub record UpdateOperatorInput : Type 0 where
  pub name : Option Text
  pub cpf : Option Text
  pub email : Option Text
  pub admin_profile : Option AdminProfile
  pub is_active : Option Bool

pub record ResetOperatorInput : Type 0 where
  pub id : Key
  pub activation_id : Key
  pub code_hash : Text
  pub expires_at : Date
  pub created_by_admin_id : Key
  pub now : Date

pub record ActivateOperatorInput : Type 0 where
  pub code_hash : Text
  pub cpf : Text
  pub email : Text
  pub password_hash : Text
  pub now : Date

abbrev pub same_profile : AdminProfile → AdminProfile → Bool
same_profile general general = true
same_profile shop shop = true
same_profile activities activities = true
same_profile _ _ = false

abbrev pub has_profile : AdminProfile → Option AdminProfile → Bool
has_profile p none = false
has_profile p (some q) = same_profile q p

-- The condition of `lockAvailableGenerals`.
abbrev pub is_available_general : User → Bool
is_available_general u =
    same_role u.role admin
    && has_profile general u.admin_profile
    && u.is_active
    && is_some u.password_hash

abbrev pub is_operator : Key → User → Bool
is_operator id u = u.id == id && same_role u.role admin

-- `usedAt: null, revokedAt: null`
abbrev pub is_pending_activation : AdminActivation → Bool
is_pending_activation a = not (is_some a.used_at) && not (is_some a.revoked_at)

-- `orderBy: { createdAt: 'desc' }`
abbrev pub is_newer_activation : AdminActivation → AdminActivation → Bool
is_newer_activation a b = leb b.created_at a.created_at

abbrev pub first_expiry : List AdminActivation → Option Date
first_expiry [] = none
first_expiry (a ∷ activations) = some a.expires_at

-- `toOperatorRecord`, with no answer where it throws
abbrev pub to_operator_record : User → Option AdminProfile → Option Date → Option AdminOperator
to_operator_record u none expires_at = none
to_operator_record u (some p) expires_at =
    if same_role u.role admin
    then some (record { user = u; admin_profile = p; activation_expires_at = expires_at })
    else none

abbrev given {ℓ} : {A : Type ℓ} → Option A → A → A
given none old = old
given (some new) old = new

abbrev given_profile : Option AdminProfile → Option AdminProfile → Option AdminProfile
given_profile none old = old
given_profile (some new) old = some new

abbrev pub updated : UpdateOperatorInput → User → User
updated input u = record u {
  name = given input.name u.name;
  cpf = given input.cpf u.cpf;
  email = given input.email u.email;
  admin_profile = given_profile input.admin_profile u.admin_profile;
  is_active = given input.is_active u.is_active;
}

abbrev pub operator_of : CreateOperatorInput → User
operator_of input = record {
  id = input.id;
  name = input.name;
  role = admin;
  points = pos 0;
  xp = pos 0;
  level = 1;
  is_active = true;
  cpf = input.cpf;
  email = input.email;
  last_login_at = none;
  password_hash = none;
  password_changed_at = none;
  admin_profile = some input.admin_profile;
  password_reset_required = false;
  password_reset_expires_at = none;
  created_at = input.now;
}

abbrev pub activation_of :
    (id admin_user_id : Key) → Text → (expires_at : Date) → (created_by now : Key) → AdminActivation
activation_of id admin_user_id code_hash expires_at created_by now = record {
  id = id;
  admin_user_id = admin_user_id;
  code_hash = code_hash;
  expires_at = expires_at;
  used_at = none;
  revoked_at = none;
  created_by_admin_id = created_by;
  created_at = now;
}

abbrev pub without_password : User → User
without_password u = record u {
  password_hash = none;
  password_changed_at = none;
  is_active = true;
  password_reset_required = false;
  password_reset_expires_at = none;
}

abbrev pub activated : ActivateOperatorInput → User → User
activated input u = record u {
  password_hash = some input.password_hash;
  password_changed_at = some input.now;
  password_reset_required = false;
  password_reset_expires_at = none;
}

abbrev pub revoked_activation : Date → AdminActivation → AdminActivation
revoked_activation now a = record a { revoked_at = some now }

abbrev pub used_activation : Date → AdminActivation → AdminActivation
used_activation now a = record a { used_at = some now }

-- The negation of the condition under which `consumeActivation` answers `null`.
abbrev pub can_consume : ActivateOperatorInput → AdminActivation → User → Bool
can_consume input a u =
    a.admin_user_id == u.id
    && is_pending_activation a
    && ltb input.now a.expires_at
    && text_eq u.cpf input.cpf
    && text_eq u.email input.email
    && u.is_active
    && not (is_some u.password_hash)
