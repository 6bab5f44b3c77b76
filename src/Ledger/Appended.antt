-- ===== src/Ledger/Appended.antt =====
-- Events that enter the ledger one after another, each against those that are there.
use semcomp2026_gameficacao.Prelude.{
  ◌≡◌, true, false, none, List, [], ◌∷◌, ◌++◌, find?, refl, ap, ◌∙◌, arith, ◌==◌, ℤ, pos, ◌+ℤ◌, All,
  int_laws, sym,
}
use mathlib.Core.List.{append_assoc}
use semcomp2026_gameficacao.Database.Schema.{Key, PointEvent}
use semcomp2026_gameficacao.Ledger.{conflicts}
use semcomp2026_gameficacao.Ledger.Sums.{ledger_points, ledger_xp}

-- No event conflicts with an older one: the unique indexes hold.
pub data IsDistinct : List PointEvent → Type 0 where
  no_events : IsDistinct []
  one_more :
      {e : PointEvent} {es : List PointEvent}
      → find? (conflicts e) es ≡ none
      → IsDistinct es
      → IsDistinct (e ∷ es)

-- The first list is what was appended, the first of it first; the others are the ledger before and
-- after.
pub data Appended : List PointEvent → List PointEvent → List PointEvent → Type 0 where
  done : {es : List PointEvent} → Appended [] es es
  append :
      {e : PointEvent} {news es after : List PointEvent}
      → find? (conflicts e) es ≡ none
      → Appended news (e ∷ es) after
      → Appended (e ∷ news) es after

pub Appended-IsDistinct :
    {news es after : List PointEvent} → Appended news es after → IsDistinct es → IsDistinct after
Appended-IsDistinct done h = h
Appended-IsDistinct (append alone a) h = Appended-IsDistinct a (one_more alone h)

pub Appended-before :
    {news es es' after : List PointEvent}
    → es ≡ es'
    → Appended news es after
    → Appended news es' after
Appended-before same a = rw (sym same) a

pub Appended-append :
    {news es after : List PointEvent}
    → Appended news es after
    → (new : List PointEvent) × (after ≡ new ++ es)
Appended-append done = ([], refl)
Appended-append (append {e} {news} {es} {after} alone a) =
    let (new, same) = Appended-append a in
    (new ++ (e ∷ []), same ∙ sym (append_assoc new (e ∷ []) es))

abbrev pub sum_points : List PointEvent → ℤ
sum_points [] = pos 0
sum_points (e ∷ es) = e.points +ℤ sum_points es

abbrev pub sum_xp : List PointEvent → ℤ
sum_xp [] = pos 0
sum_xp (e ∷ es) = e.xp_delta +ℤ sum_xp es

abbrev pub IsOf : Key → PointEvent → Type 0
IsOf id e = (e.user_id == id) ≡ true

abbrev pub IsNotOf : Key → PointEvent → Type 0
IsNotOf id e = (e.user_id == id) ≡ false

pub ledger_points-Appended :
    (id : Key) {news es after : List PointEvent}
    → Appended news es after
    → All (IsOf id) news
    → ledger_points id after ≡ sum_points news +ℤ ledger_points id es
ledger_points-Appended id done h = omega int_laws
ledger_points-Appended id (append {e} {news} {es} {after} alone a) h =
    let rest = ledger_points-Appended id a h.1 in
    let here : ledger_points id (e ∷ es) ≡ e.points +ℤ ledger_points id es = ground (arith, h.0) in
    rest ∙ ap (λ (z : ℤ). sum_points news +ℤ z) here ∙ omega int_laws

pub ledger_xp-Appended :
    (id : Key) {news es after : List PointEvent}
    → Appended news es after
    → All (IsOf id) news
    → ledger_xp id after ≡ sum_xp news +ℤ ledger_xp id es
ledger_xp-Appended id done h = omega int_laws
ledger_xp-Appended id (append {e} {news} {es} {after} alone a) h =
    let rest = ledger_xp-Appended id a h.1 in
    let here : ledger_xp id (e ∷ es) ≡ e.xp_delta +ℤ ledger_xp id es = ground (arith, h.0) in
    rest ∙ ap (λ (z : ℤ). sum_xp news +ℤ z) here ∙ omega int_laws

-- The sums of the others are as they were.
pub ledger-Appended-others :
    (id : Key) {news es after : List PointEvent}
    → Appended news es after
    → All (IsNotOf id) news
    → (ledger_points id after ≡ ledger_points id es) × (ledger_xp id after ≡ ledger_xp id es)
ledger-Appended-others id done h = (refl, refl)
ledger-Appended-others id (append {e} {news} {es} {after} alone a) h =
    let rest = ledger-Appended-others id a h.1 in
    (ground (arith, h.0, rest.0), ground (arith, h.0, rest.1))
