-- ===== src/Csv/Tests.antt =====
-- A row and a file, with every byte of a code unit as itself.
use semcomp2026_gameficacao.Prelude.{◌≤◌, refl, ℕ, List, [], ◌∷◌, length}
use semcomp2026_gameficacao.Text.{Text, text}
use semcomp2026_gameficacao.Csv.{
  CsvValue, string, null, escape_csv_field, join_fields, serialize_csv, serialize_rows,
  double_quotes,
}
use semcomp2026_gameficacao.Csv.Limit.{serialize_csv-bounds}

abbrev row : List CsvValue
row = string (text "=soma(\"a\";1)") ∷ null ∷ string (text "Ana") ∷ []

abbrev bytes_of : Text → List ℕ
bytes_of t = t

abbrev small_file : List ℕ
small_file = 0xfeff ∷ b'n' ∷ 13 ∷ 10 ∷ b'A' ∷ 13 ∷ 10 ∷ []

serialize_csv-bounds_example : length small_file ≤ 40
unfolding serialize_csv serialize_rows join_fields escape_csv_field double_quotes
serialize_csv-bounds_example =
    serialize_csv-bounds bytes_of (string (text "n") ∷ []) ((string (text "A") ∷ []) ∷ []) 40
      small_file refl
