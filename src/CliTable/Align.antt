-- ===== src/CliTable/Align.antt =====
-- packages/rust/src/cli/table.rs: where the columns of a rendered table stand.
use dirsql.Prelude.{
  ℕ, zero, suc, ◌+◌, ◌-◌, ◌≤◌, ◌≡◌, refl, sym, ap, ◌∙◌, Bool, true, false, some, List, [], ◌∷◌,
  ◌++◌, map, Text, codes, length, length-append, length-map, append_assoc, append-nil, get_elem?,
  ◌==◌, if◌then◌else◌, arith,
}
use dirsql.Json.{Json}
use dirsql.CliTable.{
  TableRow, gutter, columns, cells, grid_of, length_of, width_at, widths_from, widths, repeat, pad,
  padded_from, join, line, rule, count, render_columns, render,
}
use mathlib.Core.List.{flat_map}

some_inj : {A : Type 0} (a b : A) → some a ≡ some b → a ≡ b
some_inj a b e = ground (arith, e)

-- Where a column starts, counted from the left edge.
abbrev pub column_start : ℕ → List ℕ → ℕ
column_start i [] = 0
column_start zero (width ∷ widths) = 0
column_start (suc i) (width ∷ widths) = width + length gutter + column_start i widths

-- Each cell is at most as wide as its column.
abbrev pub Fits : List Text → List ℕ → Type 0
Fits [] [] = Unit
Fits (c ∷ cs) (w ∷ ws) = (length c ≤ w) × Fits cs ws
Fits _ _ = ⊥

length-repeat : (c n : ℕ) → length (repeat c n) ≡ n
unfolding repeat
length-repeat c zero = refl
length-repeat c (suc n) = ap suc (length-repeat c n)

length-pad : (cell : Text) (width : ℕ) → length cell ≤ width → length (pad cell width) ≡ width
unfolding pad
length-pad cell width h = omega (
  arith,
  length-append cell (repeat b' ' (width - length cell)),
  length-repeat b' ' (width - length cell),
  h,
)

-- The text has `c` at position `n`.
abbrev pub Placed : Text → ℕ → Text → Type 0
Placed c n s = (before : Text) × (rest : Text) × (s ≡ before ++ (c ++ rest)) × (length before ≡ n)

Placed-prepend : (c p s : Text) (n m : ℕ) → Placed c n s → length p + n ≡ m → Placed c m (p ++ s)
Placed-prepend c p s n m (before, rest, e, l) h = (
  p ++ before,
  rest,
  ap (λ t. p ++ t) e ∙ sym (append_assoc p before (c ++ rest)),
  omega (arith, length-append p before, l, h),
)

Placed-append : (c s t : Text) (n : ℕ) → Placed c n s → Placed c n (s ++ t)
Placed-append c s t n (before, rest, e, l) = (
  before,
  rest ++ t,
  ap (λ u. u ++ t) e
      ∙ append_assoc before (c ++ rest) t
      ∙ ap (λ u. before ++ u) (append_assoc c rest t),
  l,
)

-- A cell, padded or not, comes first in what is written for it.
shown-Placed : (last : Bool) (c d : Text) (w : ℕ) → d ≡ c → Placed c 0 (if last then d else pad d w)
unfolding pad
shown-Placed true c d w e = ([], [], sym (append-nil d) ∙ ap (λ u. u ++ []) e, refl)
shown-Placed false c d w e =
    ([], repeat b' ' (w - length d), ap (λ u. u ++ repeat b' ' (w - length d)) e, refl)

abbrev shown : ℕ → ℕ → Text → ℕ → Text
shown idx total d w = if idx == total - 1 then d else pad d w

shown-padded :
    (idx total n : ℕ) (d : Text) (w : ℕ)
    → idx + suc (suc n) ≡ total
    → length d ≤ w
    → length (shown idx total d w) ≡ w
shown-padded idx total n d w h fits = ground (arith, h, length-pad d w fits)

-- The cells from index `idx` on, joined.
padded-Aligned :
    (idx total i : ℕ) (c : Text) (cs : List Text) (ws : List ℕ)
    → idx + length cs ≡ total
    → Fits cs ws
    → get_elem? cs i ≡ some c
    → Placed c (column_start i ws) (join (padded_from idx total cs ws))
unfolding padded_from join
padded-Aligned idx total i c [] ws h f e = ground (arith, e)
padded-Aligned idx total i c (d ∷ cs) [] h f e = elim f [ ]
padded-Aligned idx total i c (d ∷ b ∷ cs) (w ∷ []) h f e = elim (f.1) [ ]
padded-Aligned idx total (suc i) c (d ∷ []) (w ∷ ws) h f e = ground (arith, e)
padded-Aligned idx total zero c (d ∷ []) (w ∷ ws) h f e =
    shown-Placed (idx == total - 1) c d w (some_inj d c e)
padded-Aligned idx total zero c (d ∷ b ∷ cs) (w ∷ v ∷ ws) h f e =
    let onward = join (padded_from (suc idx) total (b ∷ cs) (v ∷ ws)) in
    Placed-append c (shown idx total d w ++ gutter) onward 0 (
      Placed-append c (shown idx total d w) gutter 0
        (shown-Placed (idx == total - 1) c d w (some_inj d c e)))
padded-Aligned idx total (suc i) c (d ∷ b ∷ cs) (w ∷ v ∷ ws) h f e =
    Placed-prepend c (shown idx total d w ++ gutter) _ (column_start i (v ∷ ws)) _
      (padded-Aligned (suc idx) total i c (b ∷ cs) (v ∷ ws) (omega arith) (f.1) e)
      (omega (
        arith,
        length-append (shown idx total d w) gutter,
        shown-padded idx total (length cs) d w h (f.0),
      ))

width_at-Covers :
    (index : ℕ) (header : ℕ) (grid : List (List Text)) (r : ℕ) (row : List Text)
    → get_elem? grid r ≡ some row
    → length_of (get_elem? row index) ≤ width_at index header grid
unfolding width_at
width_at-Covers index header [] r row e = ground (arith, e)
width_at-Covers index header (first ∷ grid) zero row e =
    omega (arith, ap (λ cs. length_of (get_elem? cs index)) (some_inj first row e))
width_at-Covers index header (first ∷ grid) (suc r) row e =
    omega (arith, width_at-Covers index header grid r row e)

-- The cells from index `idx` on of a row of the grid fit the widths from there on.
widths_from-Fits :
    (idx : ℕ) (columns : List Text) (grid : List (List Text)) (cs : List Text)
    → length cs ≡ length columns
    → ((i : ℕ) (header : ℕ) → length_of (get_elem? cs i) ≤ width_at (idx + i) header grid)
    → Fits cs (widths_from idx columns grid)
unfolding widths_from
widths_from-Fits idx [] grid [] h g = tt
widths_from-Fits idx [] grid (c ∷ cs) h g = absurd (omega arith)
widths_from-Fits idx (column ∷ columns) grid [] h g = absurd (omega arith)
widths_from-Fits idx (column ∷ more) grid (c ∷ cs) h g = (
  omega (arith, g 0 (length column), ap (λ k. width_at k (length column) grid) (add_zero idx)),
  widths_from-Fits (suc idx) more grid cs (omega arith) (λ i header.
      omega (arith, g (suc i) header, ap (λ k. width_at k header grid) (add_suc idx i))),
)
  where
    add_zero : (n : ℕ) → n + 0 ≡ n
    add_zero n = omega arith

    add_suc : (n i : ℕ) → n + suc i ≡ suc n + i
    add_suc n i = omega arith

get_elem?-map :
    {A B : Type 0} (f : A → B) (xs : List A) (i : ℕ) (y : B)
    → get_elem? (map f xs) i ≡ some y
    → (x : A) × (f x ≡ y)
get_elem?-map f [] i y e = ground (arith, e)
get_elem?-map f (x ∷ xs) zero y e = (x, some_inj (f x) y e)
get_elem?-map f (x ∷ xs) (suc i) y e = get_elem?-map f xs i y e

zero_add : (n : ℕ) → 0 + n ≡ n
zero_add n = omega arith

length-cells :
    {F : Type 0} (display : Json F → Text) (row : TableRow F) (names : List Text)
    → length (cells display row names) ≡ length names
unfolding cells
length-cells display row names = length-map _ names

-- A line has its `i`-th cell where the widths to the left of it, and their gutters, end.
line-Placed :
    (cs : List Text) (ws : List ℕ) (i : ℕ) (c : Text)
    → Fits cs ws
    → get_elem? cs i ≡ some c
    → Placed c (column_start i ws) (line cs ws)
unfolding line
line-Placed cs ws i c fits e =
    Placed-append c (join (padded_from 0 (length cs) cs ws)) (codes "\n") (column_start i ws)
      (padded-Aligned 0 (length cs) i c cs ws (zero_add (length cs)) fits e)

header-le-width_at :
    (index header : ℕ) (grid : List (List Text)) → header ≤ width_at index header grid
unfolding width_at
header-le-width_at index header [] = omega arith
header-le-width_at index header (row ∷ grid) = omega (arith, header-le-width_at index header grid)

header-Fits :
    (idx : ℕ) (names : List Text) (grid : List (List Text))
    → Fits names (widths_from idx names grid)
unfolding widths_from
header-Fits idx [] grid = tt
header-Fits idx (name ∷ names) grid =
    (header-le-width_at idx (length name) grid, header-Fits (suc idx) names grid)

module _ {F : Type 0} (display : Json F → Text) (rows : List (TableRow F)) where
  abbrev column_widths : List ℕ
  column_widths = widths (columns rows) (grid_of display rows)

  row-Fits :
      (r : ℕ) (row : List Text)
      → get_elem? (grid_of display rows) r ≡ some row
      → Fits row column_widths
  unfolding widths grid_of
  row-Fits r row e =
      let grid = grid_of display rows in
      let (source, same) = get_elem?-map _ rows r row e in
      let size : length row ≡ length (columns rows) =
        ap (λ cs. length cs) (sym same) ∙ length-cells display source (columns rows) in
      widths_from-Fits 0 (columns rows) grid row size (λ k header. omega (
        arith,
        width_at-Covers (0 + k) header grid r row e,
        ap (λ m. length_of (get_elem? row m)) (zero_add k),
      ))

  -- The lines of a table, and what is behind them.
  abbrev pub lines : List Text → List ℕ → Text
  lines names ws =
      line names ws
      ++ rule ws
      ++ flat_map (λ row. line row ws) (grid_of display rows)
      ++ codes "\n"
      ++ count (length rows)
      ++ codes "\n"

  render_columns-lines :
      (names : List Text) (i : ℕ) (name : Text)
      → get_elem? names i ≡ some name
      → let ws = widths names (grid_of display rows) in
        render_columns display names rows ≡ lines names ws
  unfolding render_columns
  render_columns-lines [] i name e = ground (arith, e)
  render_columns-lines (n ∷ names) i name e = refl

  -- A table with a column is a header line, a rule, a line for each row and the count of the rows.
  -- Every column stands at one place of all the lines, which depends on the column only: the header
  -- has the name of column `i`, and the line of row `r` has its cell, where the widths of the
  -- columns to the left, and their gutters, end.
  pub render-Aligned :
      (r i : ℕ) (name : Text) (row : List Text) (c : Text)
      → get_elem? (columns rows) i ≡ some name
      → get_elem? (grid_of display rows) r ≡ some row
      → get_elem? row i ≡ some c
      → let ws = widths (columns rows) (grid_of display rows) in
        (render display rows ≡ lines (columns rows) ws)
        × Placed name (column_start i ws) (line (columns rows) ws)
        × Placed c (column_start i ws) (line row ws)
  unfolding render widths
  render-Aligned r i name row c h e f =
      let ws = widths_from 0 (columns rows) (grid_of display rows) in
      (
        render_columns-lines (columns rows) i name h,
        line-Placed (columns rows) ws i name (header-Fits 0 (columns rows) (grid_of display rows))
            h,
        line-Placed row ws i c (row-Fits r row e) f,
      )
