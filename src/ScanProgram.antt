-- ===== src/ScanProgram.antt =====
-- packages/rust/src/db.rs (`scan_program`, `scanned_columns`): telling by its program that a statement
-- reads columns of one virtual table as they are.
pub mod Exact
use dirsql.Prelude.{
  ℕ, zero, suc, ◌+◌, ◌-◌, ◌^◌, min, Bool, true, false, not, ◌&&◌, Option, none, some, List, [], ◌∷◌,
  ◌++◌, map, Text, codes, text_eq, all, take, drop, length, leb, ◌==◌, if◌then◌else◌,
}
use dirsql.Prelude.Int.{ℤ, pos, negsuc, eq_ℤ}

pub record Op : Type 0 where
  pub code : Text
  pub p1 : ℤ
  pub p2 : ℤ
  pub p3 : ℤ
  pub p5 : ℤ

abbrev pub op : Text → ℕ → ℤ → ℕ → Op
op code p1 p2 p3 = record { code = code; p1 = pos p1; p2 = p2; p3 = pos p3; p5 = pos 0 }

-- `i64::try_from`, else `i64::MAX`
abbrev pub width_of : List ℤ → ℕ
width_of columns = min (length columns) (2 ^ 63 - 1)

-- The `VColumn` of each column, for the registers from `at` on.
abbrev pub column_ops : ℕ → List ℤ → List Op
column_ops at [] = []
column_ops at (column ∷ columns) = op (codes "VColumn") 0 column at ∷ column_ops (suc at) columns

unfoldable pub scan_program : List ℤ → List Op
scan_program columns =
    op (codes "Init") 0 (pos (width_of columns + 8)) 0
      ∷ op (codes "VOpen") 0 (pos 0) 0
      ∷ op (codes "Integer") 0 (pos 1) 0
      ∷ op (codes "Integer") 0 (pos 2) 0
      ∷ op (codes "VFilter") 0 (pos (width_of columns + 7)) 1
      ∷ column_ops 3 columns
    ++ op (codes "ResultRow") 3 (pos (width_of columns)) 0
      ∷ op (codes "VNext") 0 (pos 5) 0
      ∷ op (codes "Halt") 0 (pos 0) 0
      ∷ []

abbrev pub op_eq : Op → Op → Bool
op_eq a b =
    text_eq a.code b.code && eq_ℤ a.p1 b.p1 && eq_ℤ a.p2 b.p2 && eq_ℤ a.p3 b.p3 && eq_ℤ a.p5 b.p5

abbrev pub ops_eq : List Op → List Op → Bool
ops_eq [] [] = true
ops_eq [] (b ∷ bs) = false
ops_eq (a ∷ ops) [] = false
ops_eq (a ∷ ops) (b ∷ bs) = op_eq a b && ops_eq ops bs

unfoldable pub read_columns : List Op → List ℤ
read_columns [] = []
read_columns (o ∷ ops) =
    let rest = read_columns ops in if text_eq o.code (codes "VColumn") then o.p2 ∷ rest else rest

abbrev pub goto_start : Op
goto_start = op (codes "Goto") 0 (pos 1) 0

-- `split_last`, with the tests of what it splits.
abbrev pub ends_plainly : List Op → Bool
ends_plainly [] = false
ends_plainly (o ∷ []) = op_eq o goto_start
ends_plainly (o ∷ p ∷ ops) = text_eq o.code (codes "Transaction") && ends_plainly (p ∷ ops)

push_column : ℤ → Option (List ℕ) → Option (List ℕ)
push_column (pos n) (some rest) = some (n ∷ rest)
push_column _ _ = none

-- `usize::try_from` of each, collected.
unfoldable pub indexes : List ℤ → Option (List ℕ)
unfolding push_column
indexes [] = some []
indexes (column ∷ columns) = push_column column (indexes columns)

plainly : List ℤ → List Op → List Op → Bool
plainly columns expected program =
    leb (length expected) (length program)
    && ends_plainly (drop (length expected) program)
    && not (length columns == 0)
    && ops_eq (take (length expected) program) expected

pub scanned_columns : List Op → Option (List ℕ)
unfolding plainly scan_program read_columns indexes
scanned_columns program =
    let columns = read_columns program in
    if plainly columns (scan_program columns) program then indexes columns else none
