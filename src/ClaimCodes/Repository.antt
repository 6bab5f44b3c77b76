-- ===== src/ClaimCodes/Repository.antt =====
-- claim-codes.repository.ts: the statements by which codes change.
use semcomp2026_gameficacao.Prelude.{
  ℕ, ◌+◌, Bool, true, false, not, ◌&&◌, ◌||◌, Option, none, some, List, [], ◌∷◌, ◌==◌,
}
use semcomp2026_gameficacao.Database.{Prisma}
use semcomp2026_gameficacao.Database.Schema.{Key, User, Action, ClaimCode, ClaimCodeBulkOperation}
use semcomp2026_gameficacao.Database.Failure.{ok, err, fault}
use semcomp2026_gameficacao.Database.Tx.{Db, Tx}

abbrev pub same_bool : Bool → Bool → Bool
same_bool true b = b
same_bool false b = not b

-- The data of the `updateMany`: `{ isActive }`.
abbrev pub switched : Bool → ClaimCode → ClaimCode
switched is_active c = record c { is_active = is_active }

-- `where: { isUsed: false, isActive: { not: isActive } }`
abbrev pub is_switchable : Bool → ClaimCode → Bool
is_switchable is_active c = not c.is_used && not (same_bool c.is_active is_active)

-- `claimCodeHistorySelect`
pub record HistoryRow : Type 0 where
  pub code : ClaimCode
  pub action : Action
  pub used_by : Option User

module _ ⦃P : Prisma⦄ where
  abbrev user_of : Option Key → Db → Option User
  user_of none db = none
  user_of (some id) db = P.find_unique id db.users

  -- The foreign key gives every code its action.
  abbrev joined : ClaimCode → Option Action → Db → Option HistoryRow
  joined c none db = none
  joined c (some action) db =
      some (record { code = c; action = action; used_by = user_of c.used_by_id db })

  abbrev history_row : Option ClaimCode → Db → Option HistoryRow
  history_row none db = none
  history_row (some c) db = joined c (P.find_unique c.action_id db.actions) db

  -- `findClaimCodeById`
  abbrev pub find_claim_code_by_id : Key → Db → Option HistoryRow
  find_claim_code_by_id id db = history_row (P.find_unique id db.claim_codes) db

  -- `updateClaimCodeStatus`
  unfoldable pub update_claim_code_status : Key → (is_active previous : Bool) → Tx ℕ
  update_claim_code_status id is_active previous db =
      let (codes, count) =
        P.update_many id (λ c. not c.is_used && same_bool c.is_active previous) (switched is_active)
          db.claim_codes in
      ok (count, record db { claim_codes = codes })

  -- The rows of the ids one after another: an `updateMany` with `id: { in: ids }`.
  unfoldable pub switch_all : List Key → Bool → P.Table ClaimCode → P.Table ClaimCode × ℕ
  switch_all [] is_active codes = (codes, 0)
  switch_all (id ∷ ids) is_active codes =
      let (one, count) = P.update_many id (is_switchable is_active) (switched is_active) codes in
      let (rest, more) = switch_all ids is_active one in (rest, count + more)

  -- `updateClaimCodeStatuses`
  unfoldable pub update_claim_code_statuses : List Key → Bool → Tx ℕ
  unfolding switch_all
  update_claim_code_statuses ids is_active db =
      let (codes, count) = switch_all ids is_active db.claim_codes in
      ok (count, record db { claim_codes = codes })

  abbrev store_operation :
      ClaimCodeBulkOperation → Option ClaimCodeBulkOperation → Tx ClaimCodeBulkOperation
  store_operation o none db =
      ok (o, record db { bulk_operations = P.create o.id o db.bulk_operations })
  store_operation o (some old) db = err fault

  -- `createBulkOperation`; the id and the id of the request are unique.
  unfoldable pub create_bulk_operation : ClaimCodeBulkOperation → Tx ClaimCodeBulkOperation
  create_bulk_operation o db =
      store_operation o
        (P.find_first (λ (p : ClaimCodeBulkOperation). o.id == p.id || o.request_id == p.request_id)
          db.bulk_operations)
        db
