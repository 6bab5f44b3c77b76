-- ===== src/Pagination/Whole.antt =====
-- The pages together are the list.
use semcomp2026_gameficacao.Prelude.{
  ℕ, zero, suc, ◌+◌, ◌-◌, ◌*◌, ◌≡◌, ◌≤◌, ◌<◌, List, [], ◌∷◌, ◌++◌, length, take, arith, refl, sym,
  ap, ◌∙◌,
}
use mathlib.Core.List.{append_assoc, append-nil}
use native.Mathlib.Omega.{div_any}
use semcomp2026_gameficacao.Pagination.{paginate, skip, find_page}

module _ {ℓ} {A : Type ℓ} where
  take-skip : (n : ℕ) (xs : List A) → take n xs ++ skip n xs ≡ xs
  take-skip zero xs = refl
  take-skip (suc n) [] = refl
  take-skip (suc n) (x ∷ xs) = ap (λ ys. x ∷ ys) (take-skip n xs)

  skip-empty : (n : ℕ) → skip {A = A} n [] ≡ []
  skip-empty zero = refl
  skip-empty (suc n) = refl

  skip-skip : (m n : ℕ) (xs : List A) → skip m (skip n xs) ≡ skip (n + m) xs
  skip-skip m zero xs = ap (λ (k : ℕ). skip k xs) (omega arith)
  skip-skip m (suc n) [] = skip-empty m ∙ sym (skip-empty (suc n + m))
  skip-skip m (suc n) (x ∷ xs) =
      let next : suc (n + m) ≡ suc n + m = omega arith in
      skip-skip m n xs ∙ ap (λ (k : ℕ). skip k (x ∷ xs)) next

  skip-all : (n : ℕ) (xs : List A) → length xs ≤ n → skip n xs ≡ []
  skip-all zero [] h = refl
  skip-all zero (x ∷ xs) h = absurd (omega (arith, h))
  skip-all (suc n) [] h = refl
  skip-all (suc n) (x ∷ xs) h = skip-all n xs (omega (arith, h))

  -- The pages after the first `done`, `count` of them.
  abbrev pub pages_after : (done limit count : ℕ) → List A → List A
  pages_after done limit zero rows = []
  pages_after done limit (suc count) rows =
      find_page (suc done) limit rows ++ pages_after (suc done) limit count rows

  find_page-suc :
      (done limit : ℕ) (rows : List A)
      → find_page (suc done) limit rows ≡ take limit (skip (done * limit) rows)
  unfolding find_page
  find_page-suc done limit rows = ap (λ (k : ℕ). take limit (skip (k * limit) rows)) (omega arith)

  pages_after-skip :
      (done limit count : ℕ) (rows : List A)
      → pages_after done limit count rows ++ skip ((done + count) * limit) rows
        ≡ skip (done * limit) rows
  pages_after-skip done limit zero rows = ap (λ (k : ℕ). skip (k * limit) rows) (omega arith)
  pages_after-skip done limit (suc count) rows =
      let here = skip (done * limit) rows in
      let more = pages_after (suc done) limit count rows in
      let beyond = λ (k : ℕ). skip (k * limit) rows in
      let same : beyond (done + suc count) ≡ beyond (suc done + count) = ap beyond (omega arith) in
      let next : suc done * limit ≡ done * limit + limit = omega arith in
      let rest =
        ap (λ ys. more ++ ys) same
        ∙ pages_after-skip (suc done) limit count rows
        ∙ ap (λ (k : ℕ). skip k rows) next
        ∙ sym (skip-skip limit (done * limit) rows) in
      ap (λ ys. ys ++ more ++ beyond (done + suc count)) (find_page-suc done limit rows)
      ∙ append_assoc (take limit here) more (beyond (done + suc count))
      ∙ ap (λ ys. take limit here ++ ys) rest
      ∙ take-skip limit here

-- With a limit of one or more, the number of pages is the least whose pages hold all the rows.
paginate-bounds {ℓ} :
    {A : Type ℓ} (items : List A) (total page limit : ℕ)
    → 1 ≤ limit
    → (total ≤ (paginate items total page limit).meta.total_pages * limit)
      × ((paginate items total page limit).meta.total_pages * limit < total + limit)
unfolding paginate
paginate-bounds items total page limit h =
    let whole = div_any (total + limit - 1) limit in (omega (arith, whole), omega (arith, whole))

-- With a limit of one or more, the pages from the first to the last that the answer counts, one
-- after another, are all the rows in their order.
pub paginate-pages {ℓ} :
    {A : Type ℓ} (items rows : List A) (page limit : ℕ)
    → 1 ≤ limit
    → pages_after 0 limit (paginate items (length rows) page limit).meta.total_pages rows ≡ rows
paginate-pages items rows page limit h =
    let count = (paginate items (length rows) page limit).meta.total_pages in
    let pages = pages_after 0 limit count rows in
    let start : 0 * limit ≡ 0 = omega arith in
    let enough = paginate-bounds items (length rows) page limit h in
    let none_left = skip-all ((0 + count) * limit) rows (omega (arith, enough.0)) in
    sym (append-nil pages)
    ∙ ap (λ ys. pages ++ ys) (sym none_left)
    ∙ pages_after-skip 0 limit count rows
    ∙ ap (λ (k : ℕ). skip k rows) start
