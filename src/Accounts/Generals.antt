-- ===== src/Accounts/Generals.antt =====
-- How many generals_in general administrators a change of one user leaves.
use mathlib.Core.Path.{subst}
use semcomp2026_gameficacao.Prelude.{
  ℕ, ◌+◌, ◌≤◌, ◌≡◌, refl, sym, ap, ◌∙◌, Bool, true, false, some, List, [], ◌∷◌, map, arith, ◌==◌,
  if◌then◌else◌, All, find?, any, filter, length, ==-refl, Bool-cases, inl, inr,
}
use semcomp2026_gameficacao.Database.Schema.{Key, User}
use semcomp2026_gameficacao.Accounts.Operators.Rows.{is_available_general}
use semcomp2026_gameficacao.Accounts.Operators.Policy.{is_only}
use semcomp2026_gameficacao.Accounts.Stable.{Spares}
use semcomp2026_gameficacao.Accounts.Rows.{some_inj, find?-All, All-map_from}

abbrev pub generals_in : List User → List User
generals_in us = filter is_available_general us

-- The primary key: no two rows have the same id.
abbrev pub DistinctIds : List User → Type 0
DistinctIds [] = Unit
DistinctIds (u ∷ us) = All (λ v. (u.id == v.id) ≡ false) us × DistinctIds us

abbrev bit : Bool → ℕ
bit b = if b then 1 else 0

-- `user.update({ where: { id: k }, data })`
abbrev pub change_at : Key → (User → User) → List User → List User
change_at k f us = map (λ u. if u.id == k then f u else u) us

pub DistinctIds-update :
    (w : User → Bool) (f : User → User) (us : List User)
    → ((u : User) → (f u).id ≡ u.id)
    → DistinctIds us
    → DistinctIds (map (λ u. if w u then f u else u) us)
DistinctIds-update w f [] k h = tt
DistinctIds-update w f (u ∷ us) k h = (
  All-map_from _ _ (λ v. if w v then f v else v) us (λ v other. ground (arith, k u, k v)) (h.0),
  DistinctIds-update w f us k (h.1),
)

pub count-spared :
    (w : User → Bool) (f : User → User) (us : List User)
    → Spares f
    → length (generals_in us) ≤ length (generals_in (map (λ u. if w u then f u else u) us))
count-spared w f [] k = omega arith
count-spared w f (u ∷ us) k = ground (arith, (k u).1, count-spared w f us k)

first_found :
    (p : User → Bool) (u : User) (us : List User) {v : User}
    → p u ≡ true
    → find? p (u ∷ us) ≡ some v
    → u ≡ v
first_found p u us found h = some_inj (sym (rw (found) refl) ∙ h)

next_found :
    (p : User → Bool) (u : User) (us : List User) {v : User}
    → p u ≡ false
    → find? p (u ∷ us) ≡ some v
    → find? p us ≡ some v
next_found p u us next h = sym (rw (next) refl) ∙ h

-- The rows that pass a test, before and after.
module _ (q : User → Bool) where
  pub count-cons :
      (u : User) (us : List User) → length (filter q (u ∷ us)) ≡ bit (q u) + length (filter q us)
  count-cons u us =
      elim (q u)
        as (λ b.
          length (if b then u ∷ filter q us else filter q us) ≡ bit b + length (filter q us)) [
            | true ↦ omega arith
            | false ↦ omega arith
          ]

  count-others :
      (k : Key) (f : User → User) (us : List User)
      → All (λ v. (k == v.id) ≡ false) us
      → length (filter q (change_at k f us)) ≡ length (filter q us)
  count-others k f [] h = refl
  count-others k f (u ∷ us) h =
      let other : (u.id == k) ≡ false = ground (arith, h.0) in
      rw (other)
        (omega (arith, count-cons u (change_at k f us), count-cons u us, count-others k f us (h.1)))

  count-first :
      (f : User → User) (u : User) (us : List User)
      → All (λ v. (u.id == v.id) ≡ false) us
      → length (filter q (change_at u.id f (u ∷ us))) + bit (q u)
        ≡ length (filter q (u ∷ us)) + bit (q (f u))
  count-first f u us h = rw (==-refl u.id) (
      omega
        (arith, count-cons (f u) (change_at u.id f us), count-cons u us, count-others u.id f us h))

  -- The change of the one row that was found counts once.
  pub count-found :
      (p : User → Bool) (f : User → User) (us : List User) {v : User}
      → DistinctIds us
      → find? p us ≡ some v
      → length (filter q (change_at v.id f us)) + bit (q v) ≡ length (filter q us) + bit (q (f v))
  count-found p f [] d h = absurd (cc)
  count-found p f (u ∷ us) {v} d h = elim (Bool-cases (p u)) [
    | inl found ↦
        let same : u ≡ v = first_found p u us found h in
        subst
          (λ x.
            length (filter q (change_at x.id f (u ∷ us))) + bit (q x)
            ≡ length (filter q (u ∷ us)) + bit (q (f x)))
          same (count-first f u us (d.0))
    | inr next ↦
        let later : find? p us ≡ some v = next_found p u us next h in
        let other : (u.id == v.id) ≡ false =
          find?-All (λ x. (u.id == x.id) ≡ false) p us later (d.0) in
        let rest = count-found p f us (d.1) later in
        rw (other) (omega (arith, count-cons u (change_at v.id f us), count-cons u us, rest))
  ]

  found-any :
      (p : User → Bool) (us : List User) {v : User}
      → find? p us ≡ some v
      → q v ≡ true
      → any (λ y. y.id == v.id) (filter q us) ≡ true
  found-any p [] h mine = absurd (cc)
  found-any p (u ∷ us) {v} h mine = elim (Bool-cases (p u)) [
    | inl found ↦
        let same : u ≡ v = first_found p u us found h in
        subst (λ x. any (λ y. y.id == x.id) (filter q (u ∷ us)) ≡ true) same
          (rw (ap q same ∙ mine) (rw (==-refl u.id) refl))
    | inr next ↦
        let rest = found-any p us (next_found p u us next h) mine in
        elim (q u)
          as (λ b. any (λ y. y.id == v.id) (if b then u ∷ filter q us else filter q us) ≡ true) [
            | true ↦ ground arith
            | false ↦ rest
          ]
  ]

only_or_two :
    (k : Key) (generals : List User)
    → any (λ y. y.id == k) generals ≡ true
    → is_only k generals ≡ false
    → 2 ≤ length generals
only_or_two k [] h i = absurd (cc)
only_or_two k (x ∷ []) h i = ground arith
only_or_two k (x ∷ y ∷ generals) h i = omega arith

left_over :
    (before after : Bool) (n m : ℕ)
    → m + bit before ≡ n + bit after
    → 1 ≤ n
    → (before ≡ true → after ≡ false → 2 ≤ n)
    → 1 ≤ m
left_over true true n m e h k = omega arith
left_over true false n m e h k = omega (arith, k refl refl)
left_over false true n m e h k = omega arith
left_over false false n m e h k = omega arith

-- A general is left if the change of the row that was found does not take the only one away.
pub general_left :
    (p : User → Bool) (f : User → User) (us : List User) {v : User}
    → DistinctIds us
    → 1 ≤ length (generals_in us)
    → find? p us ≡ some v
    → (is_available_general v ≡ true
        → is_available_general (f v) ≡ false
        → is_only v.id (generals_in us) ≡ false)
    → 1 ≤ length (generals_in (change_at v.id f us))
general_left p f us {v} d some_left found guard =
    left_over (is_available_general v) (is_available_general (f v)) (length (generals_in us)) _
      (count-found is_available_general p f us d found) some_left
      λ mine gone.
        only_or_two v.id (generals_in us) (found-any is_available_general p us found mine)
          (guard mine gone)
