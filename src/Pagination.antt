-- ===== src/Pagination.antt =====
-- The pages of a list: apps/api/src/common/dto/pagination-response.dto.ts and pagination-query.dto.ts,
-- and the `skip` and `take` with which the repositories, as actions.repository.ts, read a page.
-- The numbers of a query are whole and `limit` is from 1 on, as its DTO demands.
pub mod Whole
mod Tests
use semcomp2026_gameficacao.Prelude.{
  ℕ, zero, suc, ◌+◌, ◌-◌, ◌*◌, ◌/◌, List, [], ◌∷◌, ◌++◌, take, ◌&&◌, Bool, leb,
}

-- `PaginationMetaDto`
pub record PaginationMeta : Type 0 where
  pub page : ℕ
  pub limit : ℕ
  pub total : ℕ
  pub total_pages : ℕ

-- `PaginationResponse`
pub record PaginationResponse {ℓ} (A : Type ℓ) : Type ℓ where
  pub items : List A
  pub meta : PaginationMeta

-- `PaginationQueryDto`: `@Min(1)` and `@Max(100)`.
abbrev pub valid_page : (page limit : ℕ) → Bool
valid_page page limit = leb 1 page && leb 1 limit && leb limit 100

-- `Math.ceil(total / limit)`
abbrev pub ceil_div : ℕ → ℕ → ℕ
ceil_div total limit = (total + limit - 1) / limit

unfoldable pub paginate {ℓ} : {A : Type ℓ} → List A → (total page limit : ℕ) → PaginationResponse A
paginate items total page limit = record {
  items = items;
  meta = record { page = page; limit = limit; total = total; total_pages = ceil_div total limit };
}

-- `skip`
abbrev pub skip {ℓ} : {A : Type ℓ} → ℕ → List A → List A
skip zero xs = xs
skip (suc n) [] = []
skip (suc n) (x ∷ xs) = skip n xs

-- `findMany({ skip: (page - 1) * limit, take: limit })` over the rows that the `where` selects.
unfoldable pub find_page {ℓ} : {A : Type ℓ} → (page limit : ℕ) → List A → List A
find_page page limit rows = take limit (skip ((page - 1) * limit) rows)
