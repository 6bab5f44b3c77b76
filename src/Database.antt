-- ===== src/Database.antt =====
-- The database behind the repositories of apps/api/src: Prisma's client over PostgreSQL. Neither is
-- code of this repository, so the client is an interface, `Prisma`, with the behaviour that the
-- repositories rely on as its laws. The tables' rows follow apps/api/prisma/schema.
pub mod Schema
pub mod Failure
pub mod Tx
pub mod Memory
pub mod Inversion
use semcomp2026_gameficacao.Prelude.{
  ℕ, ◌≡◌, Bool, Option, none, some, List, ◌∷◌, ◌==◌, if◌then◌else◌, find?, not, map, length, filter,
}
use mathlib.Core.Option

-- One table holds rows of one type under their primary keys.
pub record Prisma : Type 1 where
  pub Table : Type 0 → Type 0
  -- `findUnique({ where: { id } })`, and `SELECT … WHERE "id" = … FOR UPDATE`
  pub find_unique : {R : Type 0} → ℕ → Table R → Option R
  -- `findFirst({ where })`, and `findUnique` by another unique column
  pub find_first : {R : Type 0} → (R → Bool) → Table R → Option R
  -- `findMany()`, in no particular order
  pub find_many : {R : Type 0} → Table R → List R
  -- `create({ data })` of a row that violates no constraint
  pub create : {R : Type 0} → ℕ → R → Table R → Table R
  -- `updateMany({ where: { id, … }, data })`, with its `count`
  pub update_many : {R : Type 0} → ℕ → (R → Bool) → (R → R) → Table R → Table R × ℕ
  -- `updateMany({ where, data })` over the whole table, with its `count`
  pub update_where : {R : Type 0} → (R → Bool) → (R → R) → Table R → Table R × ℕ
  -- `deleteMany({ where })`
  pub delete_where : {R : Type 0} → (R → Bool) → Table R → Table R
  pub find_unique-create :
      {R : Type 0} (i j : ℕ) (r : R) (t : Table R)
      → find_unique j (create i r t) ≡ (if i == j then some r else find_unique j t)
  pub find_unique-update_many :
      {R : Type 0} (i j : ℕ) (where_row : R → Bool) (f : R → R) (t : Table R)
      → find_unique j (update_many i where_row f t).0 ≡ (
          if i == j
          then Option.map (λ r. if where_row r then f r else r) (find_unique j t)
          else find_unique j t)
  pub count-update_many :
      {R : Type 0} (i : ℕ) (where_row : R → Bool) (f : R → R) (t : Table R)
      → (update_many i where_row f t).1
        ≡ elim (find_unique i t) [ none ↦ 0 | some r ↦ if where_row r then 1 else 0 ]
  pub find_many-create :
      {R : Type 0} (i : ℕ) (r : R) (t : Table R) → find_many (create i r t) ≡ r ∷ find_many t
  pub find_unique-update_where :
      {R : Type 0} (j : ℕ) (where_row : R → Bool) (f : R → R) (t : Table R)
      → find_unique j (update_where where_row f t).0
        ≡ Option.map (λ r. if where_row r then f r else r) (find_unique j t)
  pub find_many-update_where :
      {R : Type 0} (where_row : R → Bool) (f : R → R) (t : Table R)
      → find_many (update_where where_row f t).0
        ≡ map (λ r. if where_row r then f r else r) (find_many t)
  pub count-update_where :
      {R : Type 0} (where_row : R → Bool) (f : R → R) (t : Table R)
      → (update_where where_row f t).1 ≡ length (filter where_row (find_many t))
  pub find_many-delete_where :
      {R : Type 0} (where_row : R → Bool) (t : Table R)
      → find_many (delete_where where_row t) ≡ filter (λ r. not (where_row r)) (find_many t)
  pub find_first-eq_find? :
      {R : Type 0} (where_row : R → Bool) (t : Table R)
      → find_first where_row t ≡ find? where_row (find_many t)
