-- ===== src/Text/Trim.antt =====
-- `trim` applied twice.
use mathlib.Core.List.{reverse, reverse-reverse, reverse-append}
use semcomp2026_gameficacao.Prelude.{
  ◌≡◌, refl, sym, ap, ◌∙◌, Bool, true, not, [], ◌∷◌, ◌++◌, arith, Bool-cases, inl, inr,
}
use semcomp2026_gameficacao.Text.{Text, is_space, trim_start, trim}

abbrev starts_clean : Text → Bool
starts_clean [] = true
starts_clean (c ∷ s) = not (is_space c)

trim_start-clean : (s : Text) → starts_clean (trim_start s) ≡ true
unfolding trim_start
trim_start-clean [] = refl
trim_start-clean (c ∷ s) = ground (arith, trim_start-clean s)

clean-trim_start : (s : Text) → starts_clean s ≡ true → trim_start s ≡ s
unfolding trim_start
clean-trim_start [] h = refl
clean-trim_start (c ∷ s) h = ground arith

clean-append : (s t : Text) → starts_clean (s ++ t) ≡ true → starts_clean s ≡ true
clean-append [] t h = refl
clean-append (c ∷ s) t h = h

dropped : (s : Text) → (p : Text) × (s ≡ p ++ trim_start s)
unfolding trim_start
dropped [] = ([], refl)
dropped (c ∷ s) =
    let (p, at_p) = dropped s in
    elim (Bool-cases (is_space c)) [
      | inl space ↦ (c ∷ p, ground (arith, space, at_p))
      | inr ink ↦ ([], ground (arith, ink))
    ]

trim-clean : (s : Text) → starts_clean (trim s) ≡ true
unfolding trim
trim-clean s =
    let u = trim_start s in
    let (p, at_p) = dropped (reverse u) in
    let whole : reverse (p ++ trim_start (reverse u)) ≡ u =
      ap reverse (sym at_p) ∙ reverse-reverse u in
    let split = sym (reverse-append p (trim_start (reverse u))) ∙ whole in
    clean-append (reverse (trim_start (reverse u))) (reverse p)
      (ap starts_clean split ∙ trim_start-clean s)

pub trim-trim : (s : Text) → trim (trim s) ≡ trim s
unfolding trim
trim-trim s =
    let v = trim_start (reverse (trim_start s)) in
    let same : trim_start (reverse v) ≡ reverse v = clean-trim_start (reverse v) (trim-clean s) in
    let again : trim_start v ≡ v = clean-trim_start v (trim_start-clean (reverse (trim_start s))) in
    ap (λ t. reverse (trim_start (reverse t))) same
    ∙ ap (λ t. reverse (trim_start t)) (reverse-reverse v)
    ∙ ap reverse again
