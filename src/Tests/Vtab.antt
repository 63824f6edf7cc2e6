-- ===== src/Tests/Vtab.antt =====
-- Virtual tables and stored rows, on small inputs.
use mathlib.Core.List.{flatten}
use dirsql.Prelude.{
  ℕ, ◌+◌, ◌-◌, ◌^◌, ◌≡◌, refl, true, false, Option, none, some, List, [], ◌∷◌, map, Text,
  if◌then◌else◌, arith, ◌++◌, ◌↔◌, codes,
}
use dirsql.Prelude.Int.{pos}
use dirsql.Value.{Value, integer, null}
use dirsql.VtabScaffold.Plan.{
  Constraint, best_index, plan_idx_num, lookup_column, prefetches, wants,
}
use dirsql.VtabScaffold.Plan.Choice.{preferred, Answers, best_index-lookup_column}
use dirsql.VtabScaffold.Cursor.{text, first_key, Cursor, opened, filter}
use dirsql.VtabScaffold.Cursor.Run.{collect}
use dirsql.VtabScaffold.Cursor.Filter.{wanted}
use dirsql.VtabScaffold.Cursor.Filter.Reached.{on_open, on_filter, filter-Reached}
use dirsql.ScanProgram.{Op, op, goto_start, scan_program, scanned_columns}
use dirsql.ScanProgram.Exact.{IsScan, scanned_columns-IsScan}
use dirsql.Reconcile.{StoredRow, ShapedRows, stored_at, cells_at, compared, match_on, plan_rows}
use dirsql.Reconcile.Counts.{count}
use dirsql.Reconcile.Placed.Rows.{IsPlaced, plan_rows-IsPlaced}
use dirsql.Reconcile.Counts.Loop.{plan_rows-counts}

abbrev usable_on : ℕ → Constraint
usable_on column = record { column = pos column; usable = true; equality = true }

abbrev constraints : List Constraint
constraints =
    record { column = pos 2; usable = false; equality = true } ∷ usable_on 7 ∷ usable_on 2 ∷ []

best_index-lookup_column_example :
    (lookup_column (best_index (some 3) (1 ∷ 2 ∷ 7 ∷ []) 8 constraints).idx_num
      ≡ preferred (1 ∷ 2 ∷ 7 ∷ []) constraints)
    × (prefetches (best_index (some 3) (1 ∷ 2 ∷ 7 ∷ []) 8 constraints).idx_num ≡ wants (some 3) 8)
    × Answers constraints
        (preferred (1 ∷ 2 ∷ 7 ∷ []) constraints)
        (best_index (some 3) (1 ∷ 2 ∷ 7 ∷ []) 8 constraints).argument
best_index-lookup_column_example =
    best_index-lookup_column (some 3) (1 ∷ 2 ∷ 7 ∷ []) 8 constraints refl

abbrev chunks : List (List ℕ)
chunks = (5 ∷ 6 ∷ []) ∷ (5 ∷ []) ∷ []

abbrev own_key : ℕ → ℕ → Option Text
own_key row column = some (row ∷ [])

abbrev used : Cursor ℕ
used = (filter chunks own_key (plan_idx_num (some 0) false) (text (6 ∷ []) ∷ []) opened).0

filter-Reached_example :
    (collect chunks 4 (filter chunks own_key (2 ^ 30 + 1) (text (5 ∷ []) ∷ []) used).0
      ≡ some (wanted chunks own_key (lookup_column (2 ^ 30 + 1)) (first_key (text (5 ∷ []) ∷ []))))
    × ((filter chunks own_key (2 ^ 30 + 1) (text (5 ∷ []) ∷ []) used).1 ≡ (
        if prefetches (2 ^ 30 + 1)
        then map
            (λ q. q.1)
            (wanted chunks own_key (lookup_column (2 ^ 30 + 1)) (first_key (text (5 ∷ []) ∷ [])))
        else []))
unfolding lookup_column prefetches first_key flatten
filter-Reached_example =
    filter-Reached chunks own_key (2 ^ 30 + 1) (text (5 ∷ []) ∷ []) used 4 refl
      (on_filter (plan_idx_num (some 0) false) (text (6 ∷ []) ∷ []) opened on_open) (omega arith)

abbrev debug : List (Value ℕ) → Text
debug [] = []
debug (integer (pos n) ∷ cells) = n ∷ debug cells
debug (cell ∷ cells) = 0 ∷ debug cells

abbrev number : ℕ → List (Value ℕ)
number n = integer (pos n) ∷ null ∷ []

abbrev stored : List (StoredRow ℕ)
stored = (pos 11, number 1) ∷ (pos 12, number 2) ∷ (pos 13, number 1) ∷ []

abbrev new_rows : ShapedRows ℕ
new_rows = record {
  columns = (1 ∷ []) ∷ (2 ∷ []) ∷ [];
  cells = number 2 ∷ number 3 ∷ number 1 ∷ [];
  emitted = true ∷ false ∷ [];
}

plan_rows-counts_example :
    (count debug stored
        (match_on none (compared new_rows))
        (compared new_rows)
        (1 ∷ [])
        (map (λ i. (stored_at stored i).1) (plan_rows debug stored new_rows none).removed)
      ≡ count debug stored
          (match_on none (compared new_rows))
          (compared new_rows)
          (1 ∷ [])
          (map (λ row. row.1) stored)
        - count debug stored
            (match_on none (compared new_rows))
            (compared new_rows)
            (1 ∷ [])
            new_rows.cells)
    × (count debug stored
          (match_on none (compared new_rows))
          (compared new_rows)
          (1 ∷ [])
          (map (cells_at new_rows.cells) (plan_rows debug stored new_rows none).added)
        ≡ count debug stored
            (match_on none (compared new_rows))
            (compared new_rows)
            (1 ∷ [])
            new_rows.cells
          - count debug stored
              (match_on none (compared new_rows))
              (compared new_rows)
              (1 ∷ [])
              (map (λ row. row.1) stored))
plan_rows-counts_example = plan_rows-counts debug stored new_rows none (1 ∷ [])

plan_rows-IsPlaced_example :
    IsPlaced debug stored
      (plan_rows debug stored new_rows none)
      (match_on none (compared new_rows))
      (compared new_rows)
      2
      (number 1)
plan_rows-IsPlaced_example = plan_rows-IsPlaced debug stored new_rows none 2 (number 1) refl

abbrev transaction : Op
transaction = op (codes "Transaction") 0 (pos 1) 4

scanned_columns-IsScan_example :
    (scanned_columns (scan_program (pos 2 ∷ pos 0 ∷ []) ++ transaction ∷ goto_start ∷ [])
      ≡ some (2 ∷ 0 ∷ []))
    ↔ IsScan (scan_program (pos 2 ∷ pos 0 ∷ []) ++ transaction ∷ goto_start ∷ []) (2 ∷ 0 ∷ [])
unfolding scan_program
scanned_columns-IsScan_example =
    scanned_columns-IsScan (scan_program (pos 2 ∷ pos 0 ∷ []) ++ transaction ∷ goto_start ∷ [])
      (2 ∷ 0 ∷ []) (omega arith)
