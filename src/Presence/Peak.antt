-- ===== src/Presence/Peak.antt =====
-- What the reductions of the daily summaries choose.
use semcomp2026_gameficacao.Prelude.{
  ◌≡◌, ◌≤◌, Bool, true, false, none, some, List, [], ◌∷◌, All, All-map, arith, sym, Bool-cases, inl,
  inr,
}
use mathlib.Core.List.{Mem, mem-cons_of_mem, mem-cons_self}
use semcomp2026_gameficacao.Presence.{PresenceSummary, is_higher_peak, reduce, find_overall_peak}

-- No summary of the list is taken over the chosen one.
abbrev pub IsUnbeaten :
    (PresenceSummary → PresenceSummary → Bool) → PresenceSummary → PresenceSummary → Type 0
IsUnbeaten takes best s = takes s best ≡ false

module _ (takes : PresenceSummary → PresenceSummary → Bool)
    (irrefl : (a : PresenceSummary) → takes a a ≡ false)
    (asymm : (a b : PresenceSummary) → takes a b ≡ true → takes b a ≡ false)
    (negative_trans : (a b c : PresenceSummary)
      → takes a b ≡ false
      → takes b c ≡ false
      → takes a c ≡ false) where
  reduce-All :
      (current : PresenceSummary) (ss : List PresenceSummary) (best : PresenceSummary)
      → reduce takes (some current) ss ≡ some best
      → (takes current best ≡ false) × All (IsUnbeaten takes best) ss
  unfolding reduce
  reduce-All current [] best h =
      let same : current ≡ best = ground arith in (rw same (irrefl best), tt)
  reduce-All current (s ∷ ss) best h = elim (Bool-cases (takes s current)) [
    | inl taken ↦
        let rest = reduce-All s ss best (ground (arith, taken, h)) in
        (negative_trans current s best (asymm s current taken) rest.0, (rest.0, rest.1))
    | inr kept ↦
        let rest = reduce-All current ss best (ground (arith, kept, h)) in
        (rest.0, (negative_trans s current best kept rest.0, rest.1))
  ]

  reduce-none-All :
      (ss : List PresenceSummary) (best : PresenceSummary)
      → reduce takes none ss ≡ some best
      → All (IsUnbeaten takes best) ss
  unfolding reduce
  reduce-none-All [] best h = absurd (cc)
  reduce-none-All (s ∷ ss) best h = reduce-All s ss best h

reduce-Mem :
    (takes : PresenceSummary → PresenceSummary → Bool) (all : List PresenceSummary)
    (current : PresenceSummary) (ss : List PresenceSummary) (best : PresenceSummary)
    → Mem current all
    → All (λ s. Mem s all) ss
    → reduce takes (some current) ss ≡ some best
    → Mem best all
unfolding reduce
reduce-Mem takes all current [] best m ms h =
    let same : current ≡ best = ground arith in rw (sym same) m
reduce-Mem takes all current (s ∷ ss) best m ms h = elim (Bool-cases (takes s current)) [
  | inl taken ↦ reduce-Mem takes all s ss best ms.0 ms.1 (ground (arith, taken, h))
  | inr kept ↦ reduce-Mem takes all current ss best m ms.1 (ground (arith, kept, h))
]

All-Mem : (ss : List PresenceSummary) → All (λ s. Mem s ss) ss
All-Mem [] = tt
All-Mem (s ∷ ss) = (mem-cons_self, All-map _ _ ss (λ t m. mem-cons_of_mem s m) (All-Mem ss))

reduce-none-Mem :
    (takes : PresenceSummary → PresenceSummary → Bool) (ss : List PresenceSummary)
    (best : PresenceSummary)
    → reduce takes none ss ≡ some best
    → Mem best ss
unfolding reduce
reduce-none-Mem takes [] best h = absurd (cc)
reduce-none-Mem takes (s ∷ ss) best h =
    let ms = All-Mem (s ∷ ss) in reduce-Mem takes (s ∷ ss) s ss best ms.0 ms.1 h

is_higher_peak_irrefl : (a : PresenceSummary) → is_higher_peak a a ≡ false
is_higher_peak_irrefl a = ground arith

is_higher_peak_asymm :
    (a b : PresenceSummary) → is_higher_peak a b ≡ true → is_higher_peak b a ≡ false
is_higher_peak_asymm a b h = ground arith

is_higher_peak_trans :
    (a b c : PresenceSummary)
    → is_higher_peak a b ≡ false
    → is_higher_peak b c ≡ false
    → is_higher_peak a c ≡ false
is_higher_peak_trans a b c h k = ground arith

higher-bounds :
    (s best : PresenceSummary)
    → is_higher_peak s best ≡ false
    → (s.peak_online_participants ≤ best.peak_online_participants) × (is_higher_peak s best ≡ false)
higher-bounds s best h = (ground arith, h)

-- The summary that no day's peak is above.
abbrev pub IsHighest : PresenceSummary → PresenceSummary → Type 0
IsHighest best s =
    (s.peak_online_participants ≤ best.peak_online_participants) × (is_higher_peak s best ≡ false)

-- The overall peak is one of the summaries, none of them has more participants online at its peak, and
-- none would be taken over it.
pub find_overall_peak-All :
    (summaries : List PresenceSummary) (best : PresenceSummary)
    → find_overall_peak summaries ≡ some best
    → Mem best summaries × All (IsHighest best) summaries
unfolding find_overall_peak
find_overall_peak-All summaries best h = (
  reduce-none-Mem is_higher_peak summaries best h,
  All-map _ _ summaries (λ s k. higher-bounds s best k)
      (reduce-none-All is_higher_peak is_higher_peak_irrefl is_higher_peak_asymm
        is_higher_peak_trans summaries best h),
)
