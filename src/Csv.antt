-- ===== src/Csv.antt =====
-- apps/api/src/exports/csv.ts: one field of a CSV file, a row, and a file under a limit of bytes.
-- What `String` and `formatOperationalDateTime` make of a value that is no string, and the UTF-8
-- bytes of `Buffer.from`, are the runtime's: texts and a parameter here.
pub mod Reader
pub mod Limit
mod Tests
use semcomp2026_gameficacao.Prelude.{
  ℕ, ◌+◌, Bool, true, false, ◌&&◌, ◌||◌, List, [], ◌∷◌, ◌++◌, map, length, any, ltb, ◌==◌,
  if◌then◌else◌,
}
use semcomp2026_gameficacao.Text.{Text, text}

-- `CsvValue`
pub data CsvValue : Type 0 where
  string : Text → CsvValue
  -- a number, a boolean or a date, as it is written
  written : Text → CsvValue
  null undefined : CsvValue

abbrev pub text_of : CsvValue → Text
text_of (string t) = t
text_of (written t) = t
text_of null = []
text_of undefined = []

-- `[=+\-@\t\r]`
abbrev pub is_formula_char : ℕ → Bool
is_formula_char c = c == b'=' || c == b'+' || c == b'-' || c == b'@' || c == 9 || c == 13

abbrev pub starts_formula : Text → Bool
starts_formula [] = false
starts_formula (c ∷ s) = is_formula_char c

abbrev pub formula_safe : CsvValue → Text
formula_safe (string t) = if starts_formula t then 39 ∷ t else t
formula_safe v = text_of v

-- `[;"\r\n]`
abbrev pub is_special : ℕ → Bool
is_special c = c == b';' || c == 34 || c == 13 || c == 10

-- `replace(/"/g, '""')`
pub double_quotes : Text → Text
double_quotes [] = []
double_quotes (c ∷ s) = if c == 34 then c ∷ 34 ∷ double_quotes s else c ∷ double_quotes s

abbrev pub quoted : Text → Text
quoted t = if any is_special t then 34 ∷ (double_quotes t ++ (34 ∷ [])) else t

unfoldable pub escape_csv_field : CsvValue → Text
unfolding double_quotes
escape_csv_field v = quoted (formula_safe v)

-- `map(escapeCsvField).join(';')`
pub join_fields : List CsvValue → Text
unfolding escape_csv_field
join_fields [] = []
join_fields (v ∷ []) = escape_csv_field v
join_fields (v ∷ w ∷ vs) = escape_csv_field v ++ (b';' ∷ join_fields (w ∷ vs))

abbrev pub csv_line : List CsvValue → Text
csv_line row = join_fields row ++ (13 ∷ 10 ∷ [])

pub data Csv : Type 0 where
  file : (bytes : List ℕ) → Csv
  size_limit : (byte_count limit : ℕ) → Csv

module _ (utf8 : Text → List ℕ) where
  -- The bytes of a line, after the byte order mark if it is the first.
  abbrev pub line_bytes : Bool → List CsvValue → List ℕ
  line_bytes true row = utf8 (0xfeff ∷ []) ++ utf8 (csv_line row)
  line_bytes false row = utf8 (csv_line row)

  -- The `for`: `count` bytes are in the chunks so far.
  pub serialize_rows : Bool → List (List CsvValue) → (count max_bytes : ℕ) → List ℕ → Csv
  serialize_rows first [] count max_bytes chunks = file chunks
  serialize_rows first (row ∷ rows) count max_bytes chunks =
      let line = line_bytes first row in
      let next = count + length line in
      let rest = serialize_rows false rows next max_bytes (chunks ++ line) in
      if ltb max_bytes next then size_limit next max_bytes else rest

  -- `serializeCsv`
  unfoldable pub serialize_csv : List CsvValue → List (List CsvValue) → ℕ → Csv
  unfolding serialize_rows
  serialize_csv header rows max_bytes = serialize_rows true (header ∷ rows) 0 max_bytes []
