-- ===== src/Ranking/Me.antt =====
-- The entry of the participant who asks, in `getGeneralRanking` and in `getPeriodRanking`.
use semcomp2026_gameficacao.Prelude.{
  ℕ, zero, suc, ◌+◌, ◌≡◌, Bool, true, false, some, List, [], ◌∷◌, map, ◌==◌, ◌&&◌, arith, All,
  All-map, All-filter, filter-passes, filter, length, take, any, find?, ltb, Bool-cases,
  Option-cases, inl, inr, ==→eq, refl, sym, ap, ◌∙◌,
}
use semcomp2026_gameficacao.Database.{Prisma}
use semcomp2026_gameficacao.Database.Schema.{Key, Date, User}
use semcomp2026_gameficacao.Database.Tx.{Db}
use semcomp2026_gameficacao.Ranking.{
  RankingUser, to_ranking_entry, ranking_user, is_eligible, is_ahead, ranking_order, order_by,
  find_index, has_xp, find_eligible_users, find_eligible_user, find_top_general_ranking,
  count_users_ahead, general_ranking, with_period_xp, sorts_before, ranked_users, period_ranking,
  select_eligible,
}
use semcomp2026_gameficacao.Ranking.Order.{ranking_order-is_ahead, sorts_before-is_ahead}
use semcomp2026_gameficacao.Ranking.Sorted.{
  HasDistinctIds, Differ, order_by-All, count-order_by, order_by-IsRanked,
}
use semcomp2026_gameficacao.Ranking.Position.{
  IsOnly, ahead_of, has_id, found-All, find_index-any, find_index-ahead_of, entry_at-ahead_of,
}

Differ-IsOnly :
    (u v : RankingUser) (vs : List RankingUser) → All (Differ v) vs → v ≡ u → All (IsOnly u) vs
Differ-IsOnly u v vs h it = All-map (Differ v) (IsOnly u) vs (λ w k same. absurd (ground arith)) h

any_differs :
    (u v : RankingUser) (vs : List RankingUser)
    → All (Differ v) vs
    → v.id ≡ u.id
    → any (has_id u.id) vs ≡ false
any_differs u v [] h it = refl
any_differs u v (w ∷ vs) h it = ground (arith, any_differs u v vs h.1 it, ==→eq w.id u.id)

-- Where ids differ, the one who is found by an id is the only one with it.
found-IsOnly :
    (u : RankingUser) (vs : List RankingUser)
    → HasDistinctIds vs
    → find? (has_id u.id) vs ≡ some u
    → All (IsOnly u) vs
found-IsOnly u [] h found = tt
found-IsOnly u (v ∷ vs) h found = elim (Bool-cases (v.id == u.id)) [
  | inl same ↦ let it : v ≡ u = ground arith in (λ k. it, Differ-IsOnly u v vs h.0 it)
  | inr other ↦ (λ k. absurd (ground arith), found-IsOnly u vs h.1 (ground arith))
]

find?-any {ℓ} :
    {A : Type ℓ} (p : A → Bool) (xs : List A) {a : A} → find? p xs ≡ some a → any p xs ≡ true
find?-any p [] h = absurd (cc)
find?-any p (x ∷ xs) {a} h = ground (arith, find?-any p xs {a = a})

find?-id :
    (id : Key) (u : RankingUser) (vs : List RankingUser) → find? (has_id id) vs ≡ some u → u.id ≡ id
find?-id id u [] h = absurd (cc)
find?-id id u (v ∷ vs) h = ground (arith, find?-id id u vs, ==→eq v.id id)

any-count :
    (p : RankingUser → Bool) (vs : List RankingUser) → any p vs ≡ ltb 0 (length (filter p vs))
any-count p [] = refl
any-count p (v ∷ vs) = ground (arith, any-count p vs)

any-order_by :
    (before : RankingUser → RankingUser → Bool) (u : RankingUser) (vs : List RankingUser)
    → any (has_id u.id) vs ≡ true
    → any (has_id u.id) (order_by before vs) ≡ true
any-order_by before u vs h =
    let counted = count-order_by before (has_id u.id) vs in
    ground
      (arith, counted, any-count (has_id u.id) vs, any-count (has_id u.id) (order_by before vs))

HasDistinctIds-filter :
    (p : RankingUser → Bool) (vs : List RankingUser)
    → HasDistinctIds vs
    → HasDistinctIds (filter p vs)
HasDistinctIds-filter p [] h = tt
HasDistinctIds-filter p (v ∷ vs) h = elim (Bool-cases (p v)) [
  | inl keep ↦ rw keep (All-filter (Differ v) p vs h.0, HasDistinctIds-filter p vs h.1)
  | inr drop ↦ rw drop (HasDistinctIds-filter p vs h.1)
]

find_index-take :
    (id : Key) (n i : ℕ) (vs : List RankingUser)
    → find_index id (take n vs) ≡ some i
    → find_index id vs ≡ some i
unfolding find_index
find_index-take id zero i vs h = absurd (cc)
find_index-take id (suc n) i [] h = h
find_index-take id (suc n) i (v ∷ vs) h = elim (Option-cases (find_index id (take n vs))) [
  | inl missing ↦ ground (arith, missing)
  | inr (j, at_j) ↦ ground (arith, at_j, find_index-take id n j vs at_j)
]

-- Whoever is ahead of a user with XP has XP.
ahead_of-filter :
    (u : RankingUser) (vs : List RankingUser)
    → has_xp u ≡ true
    → ahead_of u (filter has_xp vs) ≡ ahead_of u vs
ahead_of-filter u [] h = refl
ahead_of-filter u (v ∷ vs) h = ground (arith, ahead_of-filter u vs h)

module _ ⦃P : Prisma⦄ where
  selected :
      (id : Key) (us : List User)
      → select_eligible (find? (λ u. u.id == id && is_eligible u) us)
        ≡ find? (has_id id) (map ranking_user (filter is_eligible us))
  selected id [] = refl
  selected id (u ∷ us) = ground (arith, selected id us)

  top-ahead_of :
      (limit i : ℕ) (db : Db) (u : RankingUser)
      → HasDistinctIds (find_eligible_users db)
      → All (IsOnly u) (find_eligible_users db)
      → find_index u.id (find_top_general_ranking limit db) ≡ some i
      → i ≡ count_users_ahead u db
  unfolding find_top_general_ranking count_users_ahead
  top-ahead_of limit i db u distinct only found =
      let all = find_eligible_users db in
      let scored = filter has_xp all in
      let sorted = order_by ranking_order scored in
      let at_i = find_index-take u.id limit i sorted found in
      let ranked =
        order_by-IsRanked ranking_order (λ v w differ. ranking_order-is_ahead v w) scored
          (HasDistinctIds-filter has_xp all distinct) in
      let only_sorted =
        order_by-All ranking_order (IsOnly u) scored (All-filter (IsOnly u) has_xp all only) in
      let positive =
        found-All (λ v. has_xp v ≡ true) u sorted
          (order_by-All ranking_order (λ v. has_xp v ≡ true) scored (filter-passes has_xp all))
          only_sorted (find_index-any u.id i sorted at_i) in
      find_index-ahead_of u i sorted ranked only_sorted at_i
      ∙ count-order_by ranking_order (λ v. is_ahead v u) scored
      ∙ ahead_of-filter u all positive

  -- If the ids of the eligible participants differ and the one who asks is eligible, the position
  -- in the answer is one more than the number of eligible participants ahead, whether the answer took
  -- it from the top of the ranking or by counting.
  pub general_ranking-me :
      (user_id limit : ℕ) (db : Db) (u : RankingUser)
      → HasDistinctIds (find_eligible_users db)
      → find_eligible_user user_id db ≡ some u
      → (general_ranking user_id limit db).me
        ≡ some (to_ranking_entry u (count_users_ahead u db + 1))
  unfolding general_ranking find_eligible_user
  general_ranking-me user_id limit db u distinct found =
      let all = find_eligible_users db in
      let at_id : find? (has_id user_id) all ≡ some u =
        sym (selected user_id (P.find_many db.users))
        ∙ ap select_eligible (sym (P.find_first-eq_find? _ db.users))
        ∙ found in
      let same : user_id ≡ u.id = ground (arith, find?-id user_id u all at_id) in
      let only = found-IsOnly u all distinct (ap (λ i. find? (has_id i) all) (sym same) ∙ at_id) in
      elim (Option-cases (find_index u.id (find_top_general_ranking limit db))) [
        | inl counted ↦ ground (arith, found, counted)
        | inr (i, at_i) ↦ ground (arith, found, at_i, top-ahead_of limit i db u distinct only at_i)
      ]

  abbrev pub period_users : Date → Date → Db → List RankingUser
  period_users start end db =
      map (with_period_xp start end (P.find_many db.point_events)) (find_eligible_users db)

  -- If the ids of the eligible participants differ and the one who asks is among them with the day's
  -- XP, the daily ranking answers with the position that is one more than the number of participants
  -- whom the order of the ranking puts ahead on that day.
  pub period_ranking-me :
      (limit : ℕ) (start end : Date) (db : Db) (u : RankingUser)
      → HasDistinctIds (period_users start end db)
      → find? (has_id u.id) (period_users start end db) ≡ some u
      → (period_ranking u.id limit start end db).me
        ≡ some (to_ranking_entry u (1 + ahead_of u (period_users start end db)))
  unfolding period_ranking ranked_users
  period_ranking-me limit start end db u distinct found =
      let users = period_users start end db in
      let sorted = order_by sorts_before users in
      let only = order_by-All sorts_before (IsOnly u) users (found-IsOnly u users distinct found) in
      let ranked = order_by-IsRanked sorts_before sorts_before-is_ahead users distinct in
      let there = any-order_by sorts_before u users (find?-any (has_id u.id) users {a = u} found) in
      let counted = count-order_by sorts_before (λ v. is_ahead v u) users in
      entry_at-ahead_of u 1 sorted ranked only there
      ∙ ap (λ (n : ℕ). some (to_ranking_entry u (1 + n))) counted
