-- ===== src/Ranking/Sorted.antt =====
-- What `ORDER BY` and `sort` do to a list of users with different ids.
use semcomp2026_gameficacao.Prelude.{
  ◌≡◌, Bool, true, false, List, [], ◌∷◌, ◌==◌, arith, All, All-map, filter, length, Bool-cases, inl,
  inr,
}
use semcomp2026_gameficacao.Ranking.{RankingUser, is_ahead, insert, order_by}
use semcomp2026_gameficacao.Ranking.Order.{is_ahead_trans, is_ahead_total}

-- Every user is ahead of all that follow.
abbrev pub IsRanked : List RankingUser → Type 0
IsRanked [] = Unit
IsRanked (u ∷ us) = All (λ v. is_ahead u v ≡ true) us × IsRanked us

-- Two different ids.
abbrev pub Differ : RankingUser → RankingUser → Type 0
Differ u v = (u.id == v.id) ≡ false

abbrev pub HasDistinctIds : List RankingUser → Type 0
HasDistinctIds [] = Unit
HasDistinctIds (u ∷ us) = All (Differ u) us × HasDistinctIds us

module _ (before : RankingUser → RankingUser → Bool) where
  insert-All {κ} :
      (Q : RankingUser → Type κ) (u : RankingUser) (vs : List RankingUser)
      → Q u
      → All Q vs
      → All Q (insert before u vs)
  unfolding insert
  insert-All Q u [] q h = (q, tt)
  insert-All Q u (v ∷ vs) q h = elim (Bool-cases (before u v)) [
    | inl first ↦ rw first (q, h)
    | inr later ↦ rw later (h.0, insert-All Q u vs q h.1)
  ]

  pub order_by-All {κ} :
      (Q : RankingUser → Type κ) (us : List RankingUser) → All Q us → All Q (order_by before us)
  unfolding order_by
  order_by-All Q [] h = tt
  order_by-All Q (u ∷ us) h = insert-All Q u (order_by before us) h.0 (order_by-All Q us h.1)

  count-insert :
      (p : RankingUser → Bool) (u : RankingUser) (vs : List RankingUser)
      → length (filter p (insert before u vs)) ≡ length (filter p (u ∷ vs))
  unfolding insert
  count-insert p u [] = ground arith
  count-insert p u (v ∷ vs) = ground (arith, count-insert p u vs)

  pub count-order_by :
      (p : RankingUser → Bool) (us : List RankingUser)
      → length (filter p (order_by before us)) ≡ length (filter p us)
  unfolding order_by
  count-order_by p [] = ground arith
  count-order_by p (u ∷ us) =
      ground (arith, count-insert p u (order_by before us), count-order_by p us)

  module _ (agrees : (u v : RankingUser) → Differ u v → before u v ≡ is_ahead u v) where
    insert-IsRanked :
        (u : RankingUser) (vs : List RankingUser)
        → All (Differ u) vs
        → IsRanked vs
        → IsRanked (insert before u vs)
    unfolding insert
    insert-IsRanked u [] differ h = (tt, tt)
    insert-IsRanked u (v ∷ vs) differ h =
        let same = agrees u v differ.0 in
        elim (Bool-cases (before u v)) [
          | inl first ↦
              let ahead : is_ahead u v ≡ true = ground (arith, same, first) in
              rw first ((ahead, All-map _ _ vs (λ w k. is_ahead_trans u v w ahead k) h.0), h)
          | inr later ↦
              let ahead : is_ahead v u ≡ true =
                is_ahead_total u v differ.0 (ground (arith, same, later)) in
              rw later (insert-All _ u vs ahead h.0, insert-IsRanked u vs differ.1 h.1)
        ]

    pub order_by-IsRanked :
        (us : List RankingUser) → HasDistinctIds us → IsRanked (order_by before us)
    unfolding order_by
    order_by-IsRanked [] h = tt
    order_by-IsRanked (u ∷ us) h =
        insert-IsRanked u (order_by before us) (order_by-All _ us h.0) (order_by-IsRanked us h.1)
