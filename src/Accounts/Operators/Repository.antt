-- ===== src/Accounts/Operators/Repository.antt =====
-- admin/admin-operators.repository.ts: the statements of AdminOperatorsRepository.
use semcomp2026_gameficacao.Prelude.{
  ℕ, Bool, not, ◌&&◌, ◌||◌, Option, none, some, List, filter, any, ltb, sort_by, ◌==◌,
  if◌then◌else◌,
}
use semcomp2026_gameficacao.Text.{text_eq}
use semcomp2026_gameficacao.Database.{Prisma}
use semcomp2026_gameficacao.Database.Schema.{Key, Date, User, AdminActivation}
use semcomp2026_gameficacao.Database.Failure.{ok, err, unique_constraint, fault}
use semcomp2026_gameficacao.Database.Tx.{Db, Tx, ◌>>=◌, ◌>>◌, pure, reads, or_throw, reject_if}
use semcomp2026_gameficacao.Accounts.Sessions.{find_user, update_users, create_user}
use semcomp2026_gameficacao.Accounts.Operators.Rows.{
  ActivateOperatorInput, AdminOperator, CreateOperatorInput, ResetOperatorInput,
  UpdateOperatorInput, activated, activation_of, can_consume, first_expiry, is_available_general,
  is_newer_activation, is_operator, is_pending_activation, operator_of, revoked_activation,
  to_operator_record, updated, used_activation, without_password,
}

module _ ⦃P : Prisma⦄ where
  -- The `adminActivations` of `operatorSelect`.
  abbrev pending_expiry : Date → Key → Db → Option Date
  pending_expiry now id db = first_expiry (
      sort_by is_newer_activation (
        filter (λ a. a.admin_user_id == id && is_pending_activation a && ltb now a.expires_at)
          (P.find_many db.admin_activations)))

  abbrev pub to_record_of : Date → User → Tx AdminOperator
  to_record_of now u = reads (pending_expiry now u.id) >>= λ expires_at.
      or_throw (to_operator_record u u.admin_profile expires_at) fault

  abbrev pub record_if_found : Date → Option User → Tx (Option AdminOperator)
  record_if_found now none = pure none
  record_if_found now (some u) = to_record_of now u >>= λ o. pure (some o)

  unfoldable pub find_operator_by_id : Key → Date → Tx (Option AdminOperator)
  unfolding sort_by
  find_operator_by_id id now = do row ← reads (find_user (is_operator id)); record_if_found now row

  abbrev pub lock_available_generals : Db → List User
  lock_available_generals db = filter is_available_general (P.find_many db.users)

  -- `SELECT … FOR UPDATE` of the administrator, and the same row.
  unfoldable pub lock_operator : Key → Date → Tx (Option AdminOperator)
  unfolding find_operator_by_id
  lock_operator id now = find_operator_by_id id now

  -- `adminActivation.create`, with the primary key and the unique `codeHash`
  unfoldable pub create_activation : AdminActivation → Tx (Unit {0})
  create_activation a db =
      if any (λ old. old.id == a.id || text_eq old.code_hash a.code_hash)
        (P.find_many db.admin_activations)
      then err unique_constraint
      else ok (tt, record db { admin_activations = P.create a.id a db.admin_activations })

  unfoldable pub update_activations :
      (AdminActivation → Bool) → (AdminActivation → AdminActivation) → Tx ℕ
  update_activations where_activation data_of db =
      let (t, count) = P.update_where where_activation data_of db.admin_activations in
      ok (count, record db { admin_activations = t })

  unfoldable pub create_operator : CreateOperatorInput → Tx AdminOperator
  unfolding create_user create_activation
  create_operator input = do
    create_user (operator_of input)
    create_activation (
        activation_of input.activation_id input.id input.code_hash input.expires_at
          input.created_by_admin_id input.now)
    or_throw
        (to_operator_record (operator_of input) (some input.admin_profile) (some input.expires_at))
        fault

  -- Whether another row has the unique columns of the row to be written.
  abbrev pub is_taken : User → Db → Bool
  is_taken u db =
      any (λ v. not (v.id == u.id) && (text_eq v.cpf u.cpf || text_eq v.email u.email))
        (P.find_many db.users)

  -- `user.update({ where: { id }, data })`
  unfoldable pub update_user : Key → (User → User) → Date → Tx AdminOperator
  unfolding update_users
  update_user id data_of now = do
    found ← reads (find_user (λ u. u.id == id))
    old ← or_throw found fault
    taken ← reads (is_taken (data_of old))
    reject_if taken unique_constraint
    _ ← update_users (λ u. u.id == id) data_of
    to_record_of now (data_of old)

  unfoldable pub update_operator : Key → UpdateOperatorInput → Date → Tx AdminOperator
  unfolding update_user
  update_operator id input now = update_user id (updated input) now

  unfoldable pub revoke_pending_activations : Key → Date → Tx ℕ
  unfolding update_activations
  revoke_pending_activations id now =
      update_activations (λ a. a.admin_user_id == id && is_pending_activation a)
        (revoked_activation now)

  -- The operator was locked before, so `user.update` finds it.
  unfoldable pub reset_operator : ResetOperatorInput → Tx AdminOperator
  unfolding update_users create_activation find_operator_by_id
  reset_operator input = do
    _ ← update_users (λ u. u.id == input.id) without_password
    create_activation (
        activation_of input.activation_id input.id input.code_hash input.expires_at
          input.created_by_admin_id input.now)
    found ← find_operator_by_id input.id input.now
    or_throw found fault

  -- After the checks of `consumeActivation`.
  unfoldable pub consume :
      ActivateOperatorInput
      → AdminActivation
      → AdminOperator
      → Tx (Option (AdminOperator × AdminOperator))
  unfolding update_users update_activations find_operator_by_id
  consume input activation before = do
    _ ← update_users (λ u. u.id == before.user.id) (activated input)
    _ ← update_activations (λ a. a.id == activation.id) (used_activation input.now)
    found ← find_operator_by_id before.user.id input.now
    pure (elim found [ none ↦ none | some after ↦ some (before, after) ])

  abbrev pub consume_by :
      ActivateOperatorInput
      → AdminActivation
      → Option AdminOperator
      → Tx (Option (AdminOperator × AdminOperator))
  consume_by input activation none = pure none
  consume_by input activation (some current) =
      if can_consume input activation current.user
      then consume input activation current
      else pure none

  abbrev pub consume_found :
      ActivateOperatorInput → Option AdminActivation → Tx (Option (AdminOperator × AdminOperator))
  consume_found input none = pure none
  consume_found input (some activation) =
      find_operator_by_id activation.admin_user_id input.now >>= λ current.
      consume_by input activation current

  -- The operator before and after, or nothing.
  unfoldable pub consume_activation :
      ActivateOperatorInput → Tx (Option (AdminOperator × AdminOperator))
  unfolding consume find_operator_by_id
  consume_activation input = do
    found ←
        reads (λ db. P.find_first (λ a. text_eq a.code_hash input.code_hash) db.admin_activations)
    consume_found input found
