-- ===== src/Accounts/Activated.antt =====
-- What an activation that returned has done.
use semcomp2026_gameficacao.Prelude.{
  ◌≡◌, refl, sym, ◌∙◌, ap, true, false, Option, none, some, arith, ◌==◌, Bool-cases, inl, inr,
}
use semcomp2026_gameficacao.Text.{Text, text_eq, trim}
use semcomp2026_gameficacao.Database.{Prisma}
use semcomp2026_gameficacao.Database.Schema.{Key, Date, AdminActivation}
use semcomp2026_gameficacao.Database.Failure.{Result, ok, err, is_ok}
use semcomp2026_gameficacao.Database.Tx.{Db, ◌>>=◌}
use semcomp2026_gameficacao.Database.Inversion.{
  >>=-elim, reads-elim, or_throw-elim, reject_if-elim, pure-ok,
}
use semcomp2026_gameficacao.Audit.Record.{record_audit-ok}
use semcomp2026_gameficacao.Accounts.Runtime.{Runtime}
use semcomp2026_gameficacao.Accounts.Sessions.{update_users}
use semcomp2026_gameficacao.Accounts.Codes.{hash_given_code, normalize_admin_activation_code}
use semcomp2026_gameficacao.Accounts.Operators.Repository
use semcomp2026_gameficacao.Accounts.Operators.Repository.{
  update_activations, consume, consume_activation, find_operator_by_id,
}
use semcomp2026_gameficacao.Accounts.Operators.Rows.{
  is_pending_activation, ActivateOperatorInput, AdminOperator, used_activation, can_consume,
}
use semcomp2026_gameficacao.Accounts.Operators.Service.{activate, activate_tx}
use semcomp2026_gameficacao.Accounts.Operators.Policy.{ActivateDto, Drawn, normalize_cpf}
use semcomp2026_gameficacao.Accounts.Keeps.{ok-Keeps}
use semcomp2026_gameficacao.Accounts.OperatorSteps.{find_operator_by_id-Keeps}

module _ ⦃P : Prisma⦄ where
  abbrev pub used_up : ActivateOperatorInput → AdminActivation → Db → P.Table AdminActivation
  used_up input a db =
      (P.update_where (λ b. b.id == a.id) (used_activation input.now) db.admin_activations).0

  consume-ok :
      (input : ActivateOperatorInput) (a : AdminActivation) (before : AdminOperator) (db : Db)
      {r : Option (AdminOperator × AdminOperator)} {db' : Db}
      → consume input a before db ≡ ok (r, db')
      → db'.admin_activations ≡ used_up input a db
  unfolding consume update_users update_activations
  consume-ok input a before db h = >>=-elim _ _ db h λ _ db1 r1 h1.
      >>=-elim _ _ db1 h1 λ _ db2 r2 h2. >>=-elim _ _ db2 h2 λ found db3 r3 h3.
        let same : db3 ≡ db2 =
          ok-Keeps (λ d. d ≡ db2) (find_operator_by_id before.user.id input.now) db2
            (find_operator_by_id-Keeps (λ d. d ≡ db2) before.user.id input.now) refl r3 in
        ground (arith, pure-ok _ db3 h3)

  consume_by-ok :
      (input : ActivateOperatorInput) (a : AdminActivation) (current : Option AdminOperator)
      (db : Db) {both : AdminOperator × AdminOperator} {db' : Db}
      → Repository.consume_by input a current db ≡ ok (some both, db')
      → (is_pending_activation a ≡ true) × (db'.admin_activations ≡ used_up input a db)
  unfolding ◌>>=◌
  consume_by-ok input a none db h = absurd (ground arith)
  consume_by-ok input a (some current) db {both} {db'} h =
      elim (Bool-cases (can_consume input a current.user)) [
        | inl can ↦
            let ran : consume input a current db ≡ ok (some both, db') = ground arith in
            (ground arith, consume-ok input a current db ran)
        | inr cannot ↦ absurd (ground arith)
      ]

  -- The row that was used up, found under its hash when it was pending.
  pub record UsedUp (input : ActivateOperatorInput) (found : Option AdminActivation) (db db' : Db)
      : Type 0 where
    pub activation : AdminActivation
    pub row : found ≡ some activation
    pub was_pending : is_pending_activation activation ≡ true
    pub table : db'.admin_activations ≡ used_up input activation db

  consume_found-ok :
      (input : ActivateOperatorInput) (found : Option AdminActivation) (db : Db)
      {both : AdminOperator × AdminOperator} {db' : Db}
      → Repository.consume_found input found db ≡ ok (some both, db')
      → UsedUp input found db db'
  unfolding ◌>>=◌
  consume_found-ok input none db h = absurd (ground arith)
  consume_found-ok input (some a) db h =
      >>=-elim (find_operator_by_id a.admin_user_id input.now) _ db h λ current db1 r h1.
        let same : db1 ≡ db =
          ok-Keeps (λ d. d ≡ db) (find_operator_by_id a.admin_user_id input.now) db
            (find_operator_by_id-Keeps (λ d. d ≡ db) a.admin_user_id input.now) refl r in
        let used = consume_by-ok input a current db1 h1 in
        record {
          activation = a;
          row = refl;
          was_pending = used.0;
          table = used.1 ∙ ap (used_up input a) same;
        }

  abbrev pub row_of_hash : Text → Db → Option AdminActivation
  row_of_hash h db = P.find_first (λ a. text_eq a.code_hash h) db.admin_activations

  consume_activation-ok :
      (input : ActivateOperatorInput) (db : Db) {both : AdminOperator × AdminOperator} {db' : Db}
      → consume_activation input db ≡ ok (some both, db')
      → UsedUp input (row_of_hash input.code_hash db) db db'
  unfolding consume_activation
  consume_activation-ok input db h =
      reads-elim (row_of_hash input.code_hash) _ db h
        λ h1. consume_found-ok input (row_of_hash input.code_hash db) db h1

pub not_ok : {A : Type 0} (x : Result A) → ((r : A) → x ≡ ok r → false ≡ true) → is_ok x ≡ false
unfolding is_ok
not_ok (err e) k = refl
not_ok (ok r) k = sym (k r refl)

module _ ⦃P : Prisma⦄ ⦃X : Runtime⦄ where
  pub record Activation (dto : ActivateDto) (db db' : Db) : Type 0 where
    pub input : ActivateOperatorInput
    pub hashed : hash_given_code (normalize_admin_activation_code dto.code) ≡ some input.code_hash
    pub used : UsedUp input (row_of_hash input.code_hash db) db db'

  abbrev input_of : ActivateDto → (code_hash password_hash : Text) → Date → ActivateOperatorInput
  input_of dto code_hash password_hash now = record {
    code_hash = code_hash;
    cpf = normalize_cpf dto.cpf;
    email = X.to_lower_case (trim dto.email);
    password_hash = password_hash;
    now = now;
  }

  pub activate-ok :
      (dto : ActivateDto) (request_id : Option Key) (drawn : Drawn) (db : Db) {r : Unit {0}}
      → (activate dto request_id drawn db).0 ≡ ok r
      → Activation dto db (activate dto request_id drawn db).1
  unfolding activate activate_tx
  activate-ok dto request_id drawn db {r} h =
      let ran : activate_tx dto request_id drawn db ≡ ok (r, (activate dto request_id drawn db).1) =
        ground arith in
      or_throw-elim request_id _ _ db ran λ id _ h0. reject_if-elim _ _ _ db h0 λ _ h1.
        or_throw-elim _ _ _ db h1 λ password_hash _ h2.
          or_throw-elim _ _ _ db h2 λ code_hash hashed h3.
            >>=-elim (consume_activation _) _ db h3 λ result db1 consumed h4.
              or_throw-elim result _ _ db1 h4 λ both is_both h5.
                >>=-elim _ _ db1 h5 λ event db2 recorded h6.
                  let input = input_of dto code_hash password_hash drawn.now in
                  let once : consume_activation input db ≡ ok (some both, db1) =
                    consumed ∙ ap (λ x. ok (x, db1)) is_both in
                  let used = consume_activation-ok input db once in
                  let audited = record_audit-ok _ _ _ db1 event db2 recorded in
                  let done = pure-ok tt db2 h6 in
                  let table : (activate dto request_id drawn db).1.admin_activations
                      ≡ used_up input used.activation db =
                    ap (λ d. d.admin_activations) done.1
                    ∙ ap (λ d. d.admin_activations) audited.state
                    ∙ used.table in
                  record {
                    input = input;
                    hashed = hashed;
                    used = record {
                      activation = used.activation;
                      row = used.row;
                      was_pending = used.was_pending;
                      table = table;
                    };
                  }
