-- ===== src/Accounts/Consumed.antt =====
-- An activation that returned has used its code up.
use semcomp2026_gameficacao.Prelude.{
  Option, ◌≡◌, refl, sym, ◌∙◌, ap, Bool, true, false, some, List, arith, ◌==◌, if◌then◌else◌, All,
  find?, find?-passes, ==-refl,
}
use semcomp2026_gameficacao.Text.{Text, text_eq, text_eq→eq, text_eq_refl}
use semcomp2026_gameficacao.Database.{Prisma}
use semcomp2026_gameficacao.Database.Schema.{Key, Date, AdminActivation}
use semcomp2026_gameficacao.Database.Failure.{ok, is_ok}
use semcomp2026_gameficacao.Database.Tx.{Db}
use semcomp2026_gameficacao.Accounts.Runtime.{Runtime}
use semcomp2026_gameficacao.Accounts.Codes.{hash_given_code, normalize_admin_activation_code}
use semcomp2026_gameficacao.Accounts.Operators.Rows.{ActivateOperatorInput, used_activation}
use semcomp2026_gameficacao.Accounts.Operators.Service.{activate}
use semcomp2026_gameficacao.Accounts.Operators.Policy.{ActivateDto, Drawn}
use semcomp2026_gameficacao.Accounts.Requests.{AccountRequest, run_accounts}
use semcomp2026_gameficacao.Accounts.OperatorSteps.{used_activation-Settles}
use semcomp2026_gameficacao.Accounts.Spent.{IsSettled, IsSpent, any-update, run_accounts-IsSpent}
use semcomp2026_gameficacao.Accounts.Rows.{some_inj, find?-All, All-map_from, any-found}
use semcomp2026_gameficacao.Accounts.Activated.{UsedUp, activate-ok, not_ok, row_of_hash}

module _ ⦃P : Prisma⦄ ⦃X : Runtime⦄ where
  -- No code that is spent activates anyone.
  IsSpent-activate :
      (dto : ActivateDto) (request_id : Option Key) (drawn : Drawn) (h : Text) (db : Db)
      → hash_given_code (normalize_admin_activation_code dto.code) ≡ some h
      → IsSpent h db
      → is_ok (activate dto request_id drawn db).0 ≡ false
  unfolding is_ok
  IsSpent-activate dto request_id drawn h db hashed spent =
      not_ok (activate dto request_id drawn db).0 λ r returned.
        let done = activate-ok dto request_id drawn db returned in
        let same : h ≡ done.input.code_hash = some_inj (sym hashed ∙ done.hashed) in
        let row : find? (λ a. text_eq a.code_hash done.input.code_hash)
              (P.find_many db.admin_activations)
            ≡ some done.used.activation =
          sym (P.find_first-eq_find? _ db.admin_activations) ∙ done.used.row in
        let given = λ (a : AdminActivation). text_eq a.code_hash done.input.code_hash in
        let rows = P.find_many db.admin_activations in
        let matches : given done.used.activation ≡ true = find?-passes given rows row in
        let settled : IsSettled h done.used.activation =
          find?-All (IsSettled h) given rows row (spent.1) in
        sym (settled (ap (text_eq done.used.activation.code_hash) same ∙ matches))
        ∙ done.used.was_pending

  -- The unique column `codeHash` and the primary key of `AdminActivation`.
  abbrev pub UniqueCodes : Db → Type 0
  UniqueCodes db =
      All
        (λ a.
          All (λ b. text_eq b.code_hash a.code_hash ≡ true → b.id ≡ a.id)
            (P.find_many db.admin_activations))
        (P.find_many db.admin_activations)

  IsSettled-if :
      (h : Text) (now : Date) (b : AdminActivation) (c : Bool)
      → (text_eq b.code_hash h ≡ true → c ≡ true)
      → IsSettled h (if c then used_activation now b else b)
  IsSettled-if h now b true k same = refl
  IsSettled-if h now b false k same = absurd (ground (arith, k same))

  used_row :
      (h : Text) (now : Date) (a b : AdminActivation)
      → text_eq a.code_hash h ≡ true
      → (text_eq b.code_hash a.code_hash ≡ true → b.id ≡ a.id)
      → IsSettled h (if b.id == a.id then used_activation now b else b)
  used_row h now a b mine unique = IsSettled-if h now b (b.id == a.id) λ same.
      let equal : b.code_hash ≡ a.code_hash =
        text_eq→eq b.code_hash h same ∙ sym (text_eq→eq a.code_hash h mine) in
      let id : b.id ≡ a.id = unique (rw (equal) (text_eq_refl a.code_hash)) in
      rw (id) (==-refl a.id)

  UsedUp-IsSpent :
      (input : ActivateOperatorInput) (db db' : Db)
      → UniqueCodes db
      → UsedUp input (row_of_hash input.code_hash db) db db'
      → IsSpent input.code_hash db'
  UsedUp-IsSpent input db db' unique used =
      let given = λ (a : AdminActivation). text_eq a.code_hash input.code_hash in
      let rows = P.find_many db.admin_activations in
      let row : find? given rows ≡ some used.activation =
        sym (P.find_first-eq_find? given db.admin_activations) ∙ used.row in
      let mine = find?-passes given rows row in
      rw (used.table) (
        rw
          (P.find_many-update_where (λ b. b.id == used.activation.id) (used_activation input.now)
            db.admin_activations)
          (
            any-update input.code_hash _ (used_activation input.now) rows
                  (used_activation-Settles input.now)
                ∙ any-found given rows row,
            All-map_from _ (IsSettled input.code_hash) _ rows
                (λ b. used_row input.code_hash input.now used.activation b mine)
                (find?-All _ given rows row unique),
          ))

  -- Where no two activations share a code hash without sharing their id, a code that activated an
  -- operator activates no one again, in any spelling of the same normal form, with any input and
  -- whatever was requested on accounts in between.
  pub activate-run_accounts :
      (dto dto' : ActivateDto) (request_id request_id' : Option Key) (drawn drawn' : Drawn)
      (qs : List AccountRequest) (db : Db)
      → UniqueCodes db
      → (activate dto request_id drawn db).0 ≡ ok tt
      → normalize_admin_activation_code dto'.code ≡ normalize_admin_activation_code dto.code
      → let later = run_accounts qs (activate dto request_id drawn db).1 in
        is_ok (activate dto' request_id' drawn' later).0 ≡ false
  activate-run_accounts dto dto' request_id request_id' drawn drawn' qs db unique returned same =
      let done = activate-ok dto request_id drawn db returned in
      IsSpent-activate dto' request_id' drawn' done.input.code_hash _
        (ap hash_given_code same ∙ done.hashed)
        (run_accounts-IsSpent done.input.code_hash qs (activate dto request_id drawn db).1
          (UsedUp-IsSpent done.input db (activate dto request_id drawn db).1 unique done.used))
