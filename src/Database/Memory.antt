-- ===== src/Database/Memory.antt =====
-- A client that keeps its tables in memory: the laws of `Prisma` can be met.
use mathlib.Core.Option
use semcomp2026_gameficacao.Prelude.{
  ℕ, ◌≡◌, refl, Bool, ◌&&◌, Option, none, some, List, [], ◌∷◌, arith, ◌==◌, if◌then◌else◌, find?,
  not, map, length, filter,
}
use semcomp2026_gameficacao.Database.{Prisma}

module _ {R : Type 0} where
  abbrev pub lookup : ℕ → List (ℕ × R) → Option R
  lookup i [] = none
  lookup i ((j, r) ∷ t) = if j == i then some r else lookup i t

  abbrev pub values : List (ℕ × R) → List R
  values [] = []
  values ((j, r) ∷ t) = r ∷ values t

  abbrev pub update : ℕ → (R → Bool) → (R → R) → List (ℕ × R) → List (ℕ × R)
  update i p f [] = []
  update i p f ((j, r) ∷ t) = (j, if j == i && p r then f r else r) ∷ update i p f t

  abbrev pub matching : (R → Bool) → Option R → ℕ
  matching p none = 0
  matching p (some r) = if p r then 1 else 0

  pub lookup-update :
      (i j : ℕ) (p : R → Bool) (f : R → R) (t : List (ℕ × R))
      → lookup j (update i p f t)
        ≡ (if i == j then Option.map (λ r. if p r then f r else r) (lookup j t) else lookup j t)
  lookup-update i j p f [] = ground arith
  lookup-update i j p f ((k, r) ∷ t) = ground (arith, lookup-update i j p f t)

  abbrev change : (R → Bool) → (R → R) → R → R
  change p f r = if p r then f r else r

  abbrev pub update_all : (R → Bool) → (R → R) → List (ℕ × R) → List (ℕ × R)
  update_all p f [] = []
  update_all p f ((j, r) ∷ t) = (j, change p f r) ∷ update_all p f t

  abbrev pub delete_all : (R → Bool) → List (ℕ × R) → List (ℕ × R)
  delete_all p [] = []
  delete_all p ((j, r) ∷ t) = if p r then delete_all p t else (j, r) ∷ delete_all p t

  pub lookup-update_all :
      (j : ℕ) (p : R → Bool) (f : R → R) (t : List (ℕ × R))
      → lookup j (update_all p f t) ≡ Option.map (change p f) (lookup j t)
  lookup-update_all j p f [] = refl
  lookup-update_all j p f ((k, r) ∷ t) = ground (arith, lookup-update_all j p f t)

  pub values-update_all :
      (p : R → Bool) (f : R → R) (t : List (ℕ × R))
      → values (update_all p f t) ≡ map (change p f) (values t)
  values-update_all p f [] = refl
  values-update_all p f ((k, r) ∷ t) = rw (values-update_all p f t) refl

  pub values-delete_all :
      (p : R → Bool) (t : List (ℕ × R))
      → values (delete_all p t) ≡ filter (λ r. not (p r)) (values t)
  values-delete_all p [] = refl
  values-delete_all p ((k, r) ∷ t) = ground (arith, values-delete_all p t)

abbrev pub memory : Prisma
memory = record {
  Table = λ R. List (ℕ × R);
  find_unique = λ i t. lookup i t;
  find_first = λ p t. find? p (values t);
  find_many = λ t. values t;
  create = λ i r t. (i, r) ∷ t;
  update_many = λ i p f t. (update i p f t, matching p (lookup i t));
  update_where = λ p f t. (update_all p f t, length (filter p (values t)));
  delete_where = λ p t. delete_all p t;
  find_unique-create = λ i j r t. refl;
  find_unique-update_many = λ i j p f t. lookup-update i j p f t;
  count-update_many = λ i p f t. refl;
  find_many-create = λ i r t. refl;
  find_unique-update_where = λ j p f t. lookup-update_all j p f t;
  find_many-update_where = λ p f t. values-update_all p f t;
  count-update_where = λ p f t. refl;
  find_many-delete_where = λ p t. values-delete_all p t;
  find_first-eq_find? = λ p t. refl;
}
