-- ===== src/Tests/Json.antt =====
-- Inferred schemas and rendered tables, on small inputs.
use mathlib.Core.List.{flatten}
use dirsql.Prelude.{
  ℕ, ◌+◌, ◌≤◌, ◌≡◌, refl, true, some, List, [], ◌∷◌, Text, codes, length, get_elem?,
}
use dirsql.Prelude.Int.{pos}
use dirsql.Json.{Json, number, string, float, null}
use dirsql.Infer.{JsonRow, infer_schema}
use dirsql.Infer.Columns.{find_column, wanted, infer_schema-wanted}
use dirsql.CliTable.{
  render, TableRow, object, not_object, columns, cells, cell, value_in, grid_of, widths, line,
  max_cell,
}
use dirsql.CliTable.Cells.{is_plain, cell-OneLine}
use dirsql.CliTable.Align.{Placed, column_start, lines, render-Aligned}

abbrev mixed : List (Json ℕ)
mixed = number (pos 1) ∷ null ∷ string (codes "x") ∷ []

abbrev json_rows : List (JsonRow ℕ)
json_rows =
    ((codes "Id", number (pos 1)) ∷ (codes "name", string (codes "a")) ∷ [])
    ∷ ((codes "id", float 3) ∷ (codes "size", number (pos 2)) ∷ [])
    ∷ []

infer_schema-wanted_example :
    find_column (codes "id") (infer_schema json_rows) ≡ wanted (codes "id") (flatten json_rows)
infer_schema-wanted_example = infer_schema-wanted json_rows (codes "id")

abbrev display : Json ℕ → Text
display (number (pos n)) = (n + 48) ∷ []
display _ = codes "1.5"

cell-OneLine_example :
    (is_plain (cell display (string (codes "a\nb"))) ≡ true)
    × (length (cell display (string (codes "a\nb"))) ≤ max_cell + 1)
cell-OneLine_example = cell-OneLine display (string (codes "a\nb"))

abbrev table_rows : List (TableRow ℕ)
table_rows =
    object ((codes "path", string (codes "a.md")) ∷ (codes "size", number (pos 3)) ∷ [])
    ∷ not_object
    ∷ object ((codes "size", number (pos 4)) ∷ (codes "kind", string (codes "file")) ∷ [])
    ∷ []

abbrev last_row : List Text
last_row = codes "NULL" ∷ codes "4" ∷ codes "file" ∷ []

last_line : get_elem? (grid_of display table_rows) 2 ≡ some last_row
unfolding grid_of cells columns value_in cell
last_line = refl

second_column : get_elem? (columns table_rows) 1 ≡ some (codes "size")
unfolding columns
second_column = refl

render-Aligned_example :
    let ws = widths (columns table_rows) (grid_of display table_rows) in
    (render display table_rows ≡ lines display table_rows (columns table_rows) ws)
    × Placed (codes "size") (column_start 1 ws) (line (columns table_rows) ws)
    × Placed (codes "4") (column_start 1 ws) (line last_row ws)
render-Aligned_example =
    render-Aligned display table_rows 2 1 (codes "size") last_row (codes "4") second_column
      last_line refl
