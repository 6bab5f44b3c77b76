-- ===== src/Ranking/Position.antt =====
-- The position of a user: in the list that was sorted, and by the count of those ahead.
use semcomp2026_gameficacao.Prelude.{
  ℕ, ◌+◌, ◌≡◌, Bool, true, some, List, [], ◌∷◌, ◌==◌, arith, All, filter, length, any, Bool-cases,
  Option-cases, inl, inr, refl,
}
use semcomp2026_gameficacao.Database.Schema.{Key}
use semcomp2026_gameficacao.Ranking.{RankingUser, to_ranking_entry, is_ahead, find_index, entry_at}
use semcomp2026_gameficacao.Ranking.Order.{is_ahead_irrefl, is_ahead_asymm}
use semcomp2026_gameficacao.Ranking.Sorted.{IsRanked}

-- Whoever has the user's id is the user.
abbrev pub IsOnly : RankingUser → RankingUser → Type 0
IsOnly u v = (v.id == u.id) ≡ true → v ≡ u

abbrev pub ahead_of : RankingUser → List RankingUser → ℕ
ahead_of u vs = length (filter (λ v. is_ahead v u) vs)

abbrev pub has_id : Key → RankingUser → Bool
has_id id v = v.id == id

none_ahead :
    (u : RankingUser) (vs : List RankingUser)
    → All (λ v. is_ahead u v ≡ true) vs
    → ahead_of u vs ≡ 0
none_ahead u [] h = refl
none_ahead u (v ∷ vs) h = ground (arith, is_ahead_asymm u v h.0, none_ahead u vs h.1)

pub found-All {κ} :
    (Q : RankingUser → Type κ) (u : RankingUser) (vs : List RankingUser)
    → All Q vs
    → All (IsOnly u) vs
    → any (has_id u.id) vs ≡ true
    → Q u
found-All Q u [] h only found = absurd (ground arith)
found-All Q u (v ∷ vs) h only found = elim (Bool-cases (v.id == u.id)) [
  | inl same ↦ rw (← only.0 same) h.0
  | inr other ↦ found-All Q u vs h.1 only.1 (ground arith)
]

pub entry_at-ahead_of :
    (u : RankingUser) (n : ℕ) (vs : List RankingUser)
    → IsRanked vs
    → All (IsOnly u) vs
    → any (has_id u.id) vs ≡ true
    → entry_at u.id n vs ≡ some (to_ranking_entry u (n + ahead_of u vs))
unfolding entry_at
entry_at-ahead_of u n [] h only found = absurd (ground arith)
entry_at-ahead_of u n (v ∷ vs) h only found = elim (Bool-cases (v.id == u.id)) [
  | inl same ↦
      let it : v ≡ u = only.0 same in
      ground (arith, it, same, is_ahead_irrefl u, none_ahead v vs h.0)
  | inr other ↦
      let there : any (has_id u.id) vs ≡ true = ground arith in
      let ahead = found-All (λ w. is_ahead v w ≡ true) u vs h.0 only.1 there in
      let rest = entry_at-ahead_of u (n + 1) vs h.1 only.1 there in
      ground (arith, other, ahead, rest)
]

pub find_index-any :
    (id : Key) (i : ℕ) (vs : List RankingUser)
    → find_index id vs ≡ some i
    → any (has_id id) vs ≡ true
unfolding find_index
find_index-any id i [] h = absurd (ground arith)
find_index-any id i (v ∷ vs) h = elim (Option-cases (find_index id vs)) [
  | inl missing ↦ ground (arith, missing)
  | inr (j, at_j) ↦ ground (arith, find_index-any id j vs at_j)
]

pub find_index-ahead_of :
    (u : RankingUser) (i : ℕ) (vs : List RankingUser)
    → IsRanked vs
    → All (IsOnly u) vs
    → find_index u.id vs ≡ some i
    → i ≡ ahead_of u vs
unfolding find_index
find_index-ahead_of u i [] h only found = absurd (ground arith)
find_index-ahead_of u i (v ∷ vs) h only found = elim (Bool-cases (v.id == u.id)) [
  | inl same ↦
      let it : v ≡ u = only.0 same in
      ground (arith, it, same, is_ahead_irrefl u, none_ahead v vs h.0)
  | inr other ↦ elim (Option-cases (find_index u.id vs)) [
    | inl missing ↦ absurd (ground (arith, other, missing))
    | inr (j, at_j) ↦
        let there = find_index-any u.id j vs at_j in
        let ahead = found-All (λ w. is_ahead v w ≡ true) u vs h.0 only.1 there in
        let rest = find_index-ahead_of u j vs h.1 only.1 at_j in
        ground (arith, other, ahead, rest, at_j)
  ]
]
