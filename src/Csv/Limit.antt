-- ===== src/Csv/Limit.antt =====
-- The size of a file that `serializeCsv` returns.
use semcomp2026_gameficacao.Prelude.{
  ℕ, ◌+◌, ◌≡◌, ◌≤◌, Bool, List, [], ◌∷◌, ◌++◌, length, length-append, ltb, arith, true, false,
  Bool-cases, inl, inr,
}
use semcomp2026_gameficacao.Text.{Text}
use semcomp2026_gameficacao.Csv.{CsvValue, file, line_bytes, serialize_rows, serialize_csv}

module _ (utf8 : Text → List ℕ) where
  serialize_rows-bounds :
      (first : Bool) (rows : List (List CsvValue)) (count max_bytes : ℕ) (chunks bytes : List ℕ)
      → count ≤ max_bytes
      → length chunks ≡ count
      → serialize_rows utf8 first rows count max_bytes chunks ≡ file bytes
      → length bytes ≤ max_bytes
  unfolding serialize_rows
  serialize_rows-bounds first [] count max_bytes chunks bytes small same h = ground arith
  serialize_rows-bounds first (row ∷ rows) count max_bytes chunks bytes small same h =
      let line = line_bytes utf8 first row in
      let next = count + length line in
      let size = length-append chunks line in
      elim (Bool-cases (ltb max_bytes next)) [
        | inl large ↦ absurd (ground (arith, large))
        | inr fits ↦
            serialize_rows-bounds false rows next max_bytes (chunks ++ line) bytes
              (ground (arith, fits)) (omega (arith, size)) (ground (arith, fits, h))
      ]

  -- A file that is returned has at most the allowed number of bytes.
  pub serialize_csv-bounds :
      (header : List CsvValue) (rows : List (List CsvValue)) (max_bytes : ℕ) (bytes : List ℕ)
      → serialize_csv utf8 header rows max_bytes ≡ file bytes
      → length bytes ≤ max_bytes
  unfolding serialize_csv
  serialize_csv-bounds header rows max_bytes bytes h =
      serialize_rows-bounds true (header ∷ rows) 0 max_bytes [] bytes (omega arith) (omega arith) h
