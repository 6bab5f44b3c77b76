-- ===== src/Accounts/Rows.antt =====
-- Rows of a table, as `updateMany` and `find` leave them.
use mathlib.Core.Path.{subst}
use semcomp2026_gameficacao.Prelude.{
  ◌≡◌, refl, Bool, true, false, none, some, List, [], ◌∷◌, map, arith, if◌then◌else◌, All, any,
  find?, filter, ◌&&◌, length, Bool-cases, inl, inr,
}

-- What would open only an open row leaves a closed one closed.
pub still_false : (a b : Bool) → (a ≡ true → b ≡ true) → b ≡ false → a ≡ false
still_false true b k h = absurd (ground (arith, k refl))
still_false false b k h = refl

module _ {A : Type 0} where
  pub All-update {κ} :
      (Q : A → Type κ) (w : A → Bool) (f : A → A) (xs : List A)
      → ((x : A) → Q x → Q (f x))
      → All Q xs
      → All Q (map (λ x. if w x then f x else x) xs)
  All-update Q w f [] k h = tt
  All-update Q w f (x ∷ xs) k h = (
    elim (w x) as (λ b. Q (if b then f x else x)) [ true ↦ k x h.0 | false ↦ h.0 ],
    All-update Q w f xs k h.1,
  )

  pub find?-none : (p : A → Bool) (xs : List A) → All (λ x. p x ≡ false) xs → find? p xs ≡ none
  find?-none p [] h = refl
  find?-none p (x ∷ xs) h = rw (h.0) (find?-none p xs h.1)

  pub count-none :
      (p : A → Bool) (xs : List A) → All (λ x. p x ≡ false) xs → length (filter p xs) ≡ 0
  count-none p [] h = refl
  count-none p (x ∷ xs) h = rw (h.0) (count-none p xs h.1)

  pub any-All : (p : A → Bool) (xs : List A) → any p xs ≡ false → All (λ x. p x ≡ false) xs
  any-All p [] h = tt
  any-All p (x ∷ xs) h = (ground arith, any-All p xs (ground arith))

  -- What is found has what every row has.
  pub find?-All {κ} :
      (Q : A → Type κ) (p : A → Bool) (xs : List A) {a : A} → find? p xs ≡ some a → All Q xs → Q a
  find?-All Q p [] h k = absurd (cc)
  find?-All Q p (x ∷ xs) {a} h k = elim (Bool-cases (p x)) [
    | inl found ↦ subst Q (ground arith) (k.0)
    | inr next ↦ find?-All Q p xs (ground arith) (k.1)
  ]

pub both_false : (a b : Bool) → (a ≡ true → b ≡ false) → (a && b) ≡ false
both_false true b k = k refl
both_false false b k = refl

pub All-mapped {κ} :
    {A : Type 0} (Q : A → Type κ) (f : A → A) (xs : List A) → ((x : A) → Q (f x)) → All Q (map f xs)
All-mapped Q f [] k = tt
All-mapped Q f (x ∷ xs) k = (k x, All-mapped Q f xs k)

pub All-map_from {κ μ} :
    {A : Type 0} (Q : A → Type κ) (R : A → Type μ) (f : A → A) (xs : List A)
    → ((x : A) → Q x → R (f x))
    → All Q xs
    → All R (map f xs)
All-map_from Q R f [] k h = tt
All-map_from Q R f (x ∷ xs) k h = (k x h.0, All-map_from Q R f xs k h.1)

pub any-found :
    {A : Type 0} (p : A → Bool) (xs : List A) {a : A} → find? p xs ≡ some a → any p xs ≡ true
any-found p [] h = absurd (cc)
any-found p (x ∷ xs) {a} h = ground (arith, any-found p xs {a = a})

pub some_inj : {A : Type 0} {a b : A} → some a ≡ some b → a ≡ b
some_inj h = cc
