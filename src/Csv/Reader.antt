-- ===== src/Csv/Reader.antt =====
-- A reader of such files, and what it makes of the escaped fields.
use semcomp2026_gameficacao.Prelude.{ℕ, zero, suc, Bool, ◌||◌, List, [], ◌∷◌, ◌==◌, if◌then◌else◌}
use semcomp2026_gameficacao.Text.{Text}

-- A bare field ends before a separator or the end of the line.
abbrev ends_field : ℕ → Bool
ends_field c = c == b';' || c == 13 || c == 10

abbrev push : ℕ → Text × Text → Text × Text
push c (field, rest) = (c ∷ field, rest)

pub read_bare : Text → Text × Text
read_bare [] = ([], [])
read_bare (c ∷ s) = let more = push c (read_bare s) in if ends_field c then ([], c ∷ s) else more

-- After the opening quote: a doubled quote is a quote, a single one ends the field.
pub read_quoted : Text → Text × Text
read_quoted [] = ([], [])
read_quoted (c ∷ []) = if c == 34 then ([], []) else (c ∷ [], [])
read_quoted (c ∷ d ∷ s) =
    let plain = push c (read_quoted (d ∷ s)) in
    let doubled = push 34 (read_quoted s) in
    if c == 34 then (if d == 34 then doubled else ([], d ∷ s)) else plain

pub read_field : Text → Text × Text
unfolding read_bare read_quoted
read_field [] = ([], [])
read_field (c ∷ s) = if c == 34 then read_quoted s else read_bare (c ∷ s)

abbrev drop_separator : Text → Text
drop_separator [] = []
drop_separator (c ∷ s) = s

-- Reads the fields of a row by their number.
pub read_row : ℕ → Text → List Text
unfolding read_field
read_row zero s = []
read_row (suc n) s = let (field, rest) = read_field s in field ∷ read_row n (drop_separator rest)
