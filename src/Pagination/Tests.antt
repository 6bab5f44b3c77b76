-- ===== src/Pagination/Tests.antt =====
-- Seven rows in pages of three.
use semcomp2026_gameficacao.Prelude.{ℕ, ◌≡◌, List, [], ◌∷◌, arith}
use semcomp2026_gameficacao.Pagination.{paginate}
use semcomp2026_gameficacao.Pagination.Whole.{pages_after, paginate-pages}

abbrev week : List ℕ
week = 1 ∷ 2 ∷ 3 ∷ 4 ∷ 5 ∷ 6 ∷ 7 ∷ []

paginate-pages_example : pages_after 0 3 (paginate week 7 1 3).meta.total_pages week ≡ week
paginate-pages_example = paginate-pages week week 1 3 (omega arith)
