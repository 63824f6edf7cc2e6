-- ===== src/CliTable.antt =====
-- packages/rust/src/cli/table.rs: result rows rendered as a table. A row is the entries of its JSON
-- object in their order; `display` is serde_json's text of a value that is neither null nor a string.
pub mod Cells
pub mod Columns
pub mod Align
use mathlib.Core.List.{flat_map}
use dirsql.Prelude.{
  ℕ, zero, suc, ◌+◌, ◌-◌, max, Bool, true, false, ◌||◌, ◌&&◌, Option, none, some, List, [], ◌∷◌,
  ◌++◌, map, Text, codes, text_eq, any, length, take, get_elem?, leb, ◌==◌, decimal, hexadecimal,
  if◌then◌else◌,
}
use dirsql.Json.{Json, null, bool, number, float, string, nested}

abbrev pub max_cell : ℕ
max_cell = 60

abbrev pub ellipsis : ℕ
ellipsis = 0x2026

abbrev pub gutter : Text
gutter = codes "  "

pub data TableRow (F : Type 0) : Type 0 where
  object : List (Text × Json F) → TableRow F
  not_object : TableRow F

-- `char::is_control`
abbrev pub is_control : ℕ → Bool
is_control c = leb c 31 || (leb 127 c && leb c 159)

pub flatten_char : ℕ → Text
flatten_char c =
    if c == 10
    then codes "\\n"
    else if c == 13
    then codes "\\r"
    else if c == 9
    then codes "\\t"
    else if is_control c
    then codes "\\u{" ++ hexadecimal c ++ codes "}"
    else c ∷ []

pub flatten : Text → Text
unfolding flatten_char
flatten [] = []
flatten (c ∷ s) = flatten_char c ++ flatten s

mark_cut : Text → Option ℕ → Text
mark_cut head none = head
mark_cut head (some c) = head ++ ellipsis ∷ []

pub truncate : Text → Text
unfolding mark_cut
truncate s = mark_cut (take max_cell s) (get_elem? s max_cell)

-- One key of a row; the set `seen` is a list.
pub see : List Text × List Text → Text → List Text × List Text
see (seen, names) key =
    if any (text_eq key) seen then (seen, names) else (key ∷ seen, names ++ key ∷ [])

pub see_keys : {F : Type 0} → List Text × List Text → List (Text × Json F) → List Text × List Text
unfolding see
see_keys s [] = s
see_keys s ((key, v) ∷ entries) = see_keys (see s key) entries

pub see_rows : {F : Type 0} → List Text × List Text → List (TableRow F) → List Text × List Text
unfolding see_keys
see_rows s [] = s
see_rows s (not_object ∷ rows) = see_rows s rows
see_rows s (object entries ∷ rows) = see_rows (see_keys s entries) rows

unfoldable pub columns : {F : Type 0} → List (TableRow F) → List Text
unfolding see_rows
columns rows = (see_rows ([], []) rows).1

find_value : {F : Type 0} → Text → List (Text × Json F) → Json F
find_value column [] = null
find_value column ((key, v) ∷ entries) = if text_eq key column then v else find_value column entries

-- `row.get(column).unwrap_or(&Value::Null)`
unfoldable pub value_in : {F : Type 0} → TableRow F → Text → Json F
unfolding find_value
value_in not_object column = null
value_in (object entries) column = find_value column entries

module _ {F : Type 0} (display : Json F → Text) where
  pub raw_text : Json F → Text
  raw_text null = codes "NULL"
  raw_text (string s) = s
  raw_text (bool b) = display (bool b)
  raw_text (number i) = display (number i)
  raw_text (float f) = display (float f)
  raw_text (nested s) = display (nested s)

  unfoldable pub cell : Json F → Text
  unfolding truncate flatten raw_text
  cell value = truncate (flatten (raw_text value))

  unfoldable pub cells : TableRow F → List Text → List Text
  unfolding cell value_in
  cells row columns = map (λ column. cell (value_in row column)) columns

length_of : Option Text → ℕ
length_of none = 0
length_of (some cell) = length cell

-- The `max` of the lengths of the cells at `index`, and of the header's length.
pub width_at : ℕ → ℕ → List (List Text) → ℕ
unfolding length_of
width_at index header [] = header
width_at index header (row ∷ grid) =
    max (length_of (get_elem? row index)) (width_at index header grid)

pub widths_from : ℕ → List Text → List (List Text) → List ℕ
unfolding width_at
widths_from index [] grid = []
widths_from index (column ∷ columns) grid =
    width_at index (length column) grid ∷ widths_from (suc index) columns grid

pub widths : List Text → List (List Text) → List ℕ
unfolding widths_from
widths columns grid = widths_from 0 columns grid

pub repeat : ℕ → ℕ → Text
repeat c zero = []
repeat c (suc n) = c ∷ repeat c n

pub pad : Text → ℕ → Text
unfolding repeat
pad cell width = cell ++ repeat b' ' (width - length cell)

-- The cells zipped with the widths and padded, but the one at index `count - 1`.
pub padded_from : ℕ → ℕ → List Text → List ℕ → List Text
unfolding pad
padded_from index count (cell ∷ cells) (width ∷ widths) =
    (if index == count - 1 then cell else pad cell width)
    ∷ padded_from (suc index) count cells widths
padded_from index count _ _ = []

pub join : List Text → Text
join [] = []
join (s ∷ []) = s
join (s ∷ t ∷ parts) = s ++ gutter ++ join (t ∷ parts)

pub line : List Text → List ℕ → Text
unfolding padded_from join
line cells widths = join (padded_from 0 (length cells) cells widths) ++ codes "\n"

pub rule : List ℕ → Text
unfolding join repeat
rule widths = join (map (repeat b'-') widths) ++ codes "\n"

pub count : ℕ → Text
count rows = if rows == 1 then codes "1 row" else decimal rows ++ codes " rows"

module _ {F : Type 0} (display : Json F → Text) where
  unfoldable pub grid_of : List (TableRow F) → List (List Text)
  unfolding cells
  grid_of rows = map (λ row. cells display row (columns rows)) rows

  pub render_columns : List Text → List (TableRow F) → Text
  unfolding cells widths line rule count grid_of
  render_columns [] rows = codes "(no rows)\n"
  render_columns (c ∷ cs) rows =
      let grid = grid_of rows in
      let ws = widths (c ∷ cs) grid in
      line (c ∷ cs) ws
      ++ rule ws
      ++ flat_map (λ row. line row ws) grid
      ++ codes "\n"
      ++ count (length rows)
      ++ codes "\n"

  pub render : List (TableRow F) → Text
  unfolding columns render_columns
  render rows = render_columns (columns rows) rows
