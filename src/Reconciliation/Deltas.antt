-- ===== src/Reconciliation/Deltas.antt =====
-- The amounts of a compensation.
use semcomp2026_gameficacao.Prelude.{
  ◌≡◌, Bool, false, List, [], ◌∷◌, length, ℤ, pos, ◌+ℤ◌, ltb_ℤ, ◌&&◌, ◌||◌, if◌then◌else◌, All,
  arith,
}
use semcomp2026_gameficacao.Database.Schema.{credit, debit}
use semcomp2026_gameficacao.Reconciliation.Snapshot.{Delta, compensation_deltas}

abbrev pub deltas_points : List Delta → ℤ
deltas_points [] = pos 0
deltas_points (d ∷ ds) = d.points +ℤ deltas_points ds

abbrev pub deltas_xp : List Delta → ℤ
deltas_xp [] = pos 0
deltas_xp (d ∷ ds) = d.xp_delta +ℤ deltas_xp ds

-- A delta moves points and XP the way of its kind, or not at all.
abbrev pub IsDirected : Delta → Type 0
IsDirected d = elim d.kind [
  | credit ↦ (ltb_ℤ d.points (pos 0) ≡ false) × (ltb_ℤ d.xp_delta (pos 0) ≡ false)
  | debit ↦ (ltb_ℤ (pos 0) d.points ≡ false) × (ltb_ℤ (pos 0) d.xp_delta ≡ false)
]

-- One of the two is above zero and the other one is below.
abbrev pub are_opposite : (points xp : ℤ) → Bool
are_opposite points xp =
    (ltb_ℤ (pos 0) points && ltb_ℤ xp (pos 0)) || (ltb_ℤ points (pos 0) && ltb_ℤ (pos 0) xp)

-- The deltas of a compensation add up to the differences, each of them moves points and XP the way of
-- its kind, and there are two where the differences have opposite signs and one otherwise.
pub compensation_deltas_lem :
    (points xp : ℤ)
    → (deltas_points (compensation_deltas points xp) ≡ points)
      × (deltas_xp (compensation_deltas points xp) ≡ xp)
      × All IsDirected (compensation_deltas points xp)
      × (length (compensation_deltas points xp) ≡ (if are_opposite points xp then 2 else 1))
unfolding compensation_deltas ◌+ℤ◌
compensation_deltas_lem points xp = (ground arith, ground arith, ground arith, ground arith)
