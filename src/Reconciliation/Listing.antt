-- ===== src/Reconciliation/Listing.antt =====
-- admin-reconciliation.service.ts: `findAll`, `findOne` and `getSummary`, with `findPage`,
-- `countDivergent` and `findByParticipantId` of the repository. Whether a row matches a search is the
-- database's ILIKE, a parameter.
use semcomp2026_gameficacao.Prelude.{
  ℕ, Bool, true, not, ◌&&◌, ◌||◌, Option, none, some, List, [], ◌∷◌, map, filter, length, ℤ, ◌-ℤ◌,
  eqb_ℤ, ltb, ◌==◌, sort_by, if◌then◌else◌,
}
use semcomp2026_gameficacao.Text.{Text}
use semcomp2026_gameficacao.Database.{Prisma}
use semcomp2026_gameficacao.Database.Schema.{Key, User}
use semcomp2026_gameficacao.Database.Failure.{
  Result, ok, err, fault, not_found, participant_not_found,
}
use semcomp2026_gameficacao.Database.Tx.{Db}
use semcomp2026_gameficacao.Actions.Repository.{is_participant}
use semcomp2026_gameficacao.Pagination.{PaginationResponse, paginate, find_page}
use semcomp2026_gameficacao.Reconciliation.Repository.{
  ReconciliationRow, reconciliation_row, is_safe,
}
use semcomp2026_gameficacao.Reconciliation.Snapshot.{ReconciliationStatus, status_of}

-- `ReconciliationFilter`
pub data ReconciliationFilter : Type 0 where
  all divergent_only : ReconciliationFilter

-- `ListReconciliationDto`
pub record ListDto : Type 0 where
  pub page : ℕ
  pub limit : ℕ
  pub search : Option Text
  pub filter_by : ReconciliationFilter

-- `ReconciliationResponseDto`
pub record ReconciliationResponse : Type 0 where
  pub row : ReconciliationRow
  pub points_difference : ℤ
  pub xp_difference : ℤ
  pub status : ReconciliationStatus

-- `serialize`
abbrev pub serialize : ReconciliationRow → ReconciliationResponse
serialize row =
    let points = row.stored_points -ℤ row.ledger_points in
    let xp = row.stored_xp -ℤ row.ledger_xp in
    record {
      row = row;
      points_difference = points;
      xp_difference = xp;
      status = status_of points xp;
    }

abbrev pub is_divergent : ReconciliationRow → Bool
is_divergent row =
    not (eqb_ℤ row.stored_points row.ledger_points) || not (eqb_ℤ row.stored_xp row.ledger_xp)

-- `ORDER BY "participantCreatedAt" DESC, "participantId" DESC`
abbrev pub is_newer : User → User → Bool
is_newer u v = ltb v.created_at u.created_at || u.created_at == v.created_at && ltb v.id u.id

-- `mapReconciliationRow`; the `RangeError` of `toSafeInteger` is a fault.
abbrev pub safe_row : ReconciliationRow → Result ReconciliationRow
safe_row row = if is_safe row.ledger_points && is_safe row.ledger_xp then ok row else err fault

abbrev pub also :
    Result ReconciliationRow → Result (List ReconciliationRow) → Result (List ReconciliationRow)
also (err e) rows = err e
also (ok row) (err e) = err e
also (ok row) (ok rows) = ok (row ∷ rows)

unfoldable pub safe_rows : List ReconciliationRow → Result (List ReconciliationRow)
safe_rows [] = ok []
safe_rows (row ∷ rows) = let rest = safe_rows rows in also (safe_row row) rest

-- `predicates`
abbrev selects : ReconciliationFilter → ReconciliationRow → Bool
selects all row = true
selects divergent_only row = is_divergent row

abbrev searches : (Text → User → Bool) → Option Text → User → Bool
searches matches none u = true
searches matches (some []) u = true
searches matches (some pattern) u = matches pattern u

abbrev pub paginated :
    Result (List ReconciliationRow)
    → (total page limit : ℕ) → Result (PaginationResponse ReconciliationResponse)
paginated (err e) total page limit = err e
paginated (ok rows) total page limit = ok (paginate (map serialize rows) total page limit)

module _ ⦃P : Prisma⦄ where
  abbrev pub row_of_user : Db → User → ReconciliationRow
  row_of_user db u = reconciliation_row u.id (P.find_many db.point_events) u

  -- The participants of `reconciliationRelation`.
  abbrev pub participants : Db → List User
  participants db = filter (λ u. is_participant u.role) (P.find_many db.users)

  -- `findPage` before it takes its page.
  abbrev pub selected : (Text → User → Bool) → ListDto → Db → List ReconciliationRow
  selected matches query db = filter (selects query.filter_by) (
      map (row_of_user db)
        (sort_by is_newer (filter (searches matches query.search) (participants db))))

  -- `findAll`
  unfoldable pub find_all :
      (Text → User → Bool) → ListDto → Db → Result (PaginationResponse ReconciliationResponse)
  unfolding safe_rows
  find_all matches query db =
      let rows = selected matches query db in
      paginated (safe_rows (find_page query.page query.limit rows)) (length rows) query.page
        query.limit

  abbrev serialized : Option User → Db → Result ReconciliationResponse
  serialized none db = err (not_found participant_not_found)
  serialized (some u) db = elim (safe_row (row_of_user db u)) [
    | err e ↦ err e
    | ok row ↦ ok (serialize row)
  ]

  -- `findOne`
  unfoldable pub find_one : Key → Db → Result ReconciliationResponse
  find_one id db = serialized (P.find_first (λ u. u.id == id && is_participant u.role) db.users) db

  -- `getSummary`, with `countDivergent`
  unfoldable pub get_summary : Db → ℕ
  get_summary db = length (filter is_divergent (map (row_of_user db) (participants db)))
