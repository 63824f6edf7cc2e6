-- ===== src/VtabScaffold/Lookup.antt =====
-- packages/rust/src/vtab_scaffold.rs (`scan_matching`, `LookupIndex`): the positions of the rows with
-- a key. `row_key` is the source's `lookup_key`; a `HashMap` is an association list.
pub mod Index
use dirsql.Prelude.{
  ℕ, zero, suc, Bool, true, false, Option, none, some, List, [], ◌∷◌, ◌++◌, Text, text_eq,
  if◌then◌else◌,
}

-- `row_key(row, column) == Some(key)`
abbrev pub is_key : Option Text → Text → Bool
is_key none key = false
is_key (some k) key = text_eq k key

-- `entry(text).or_default().push(position)`
pub add_position : Text → ℕ → List (Text × List ℕ) → List (Text × List ℕ)
add_position k p [] = (k, p ∷ []) ∷ []
add_position k p ((j, ps) ∷ positions) =
    if text_eq j k then (j, ps ++ p ∷ []) ∷ positions else (j, ps) ∷ add_position k p positions

pub positions_of : Text → List (Text × List ℕ) → List ℕ
positions_of key [] = []
positions_of key ((j, ps) ∷ positions) = if text_eq j key then ps else positions_of key positions

pub record LookupIndex : Type 0 where
  pub column : ℕ
  pub positions : List (Text × List ℕ)

add_keyed : Option Text → ℕ → List (Text × List ℕ) → List (Text × List ℕ)
unfolding add_position
add_keyed none p positions = positions
add_keyed (some k) p positions = add_position k p positions

module _ {R : Type 0} (row_key : R → ℕ → Option Text) where
  -- `enumerate` from `p` on.
  unfoldable pub scan_from : ℕ → List R → ℕ → Text → List ℕ
  scan_from p [] column key = []
  scan_from p (row ∷ rows) column key =
      let rest = scan_from (suc p) rows column key in
      if is_key (row_key row column) key then p ∷ rest else rest

  unfoldable pub scan_matching : List R → ℕ → Text → List ℕ
  unfolding scan_from
  scan_matching rows column key = scan_from 0 rows column key

  pub build_from : ℕ → List R → ℕ → List (Text × List ℕ) → List (Text × List ℕ)
  unfolding add_keyed
  build_from p [] column positions = positions
  build_from p (row ∷ rows) column positions =
      build_from (suc p) rows column (add_keyed (row_key row column) p positions)

  unfoldable pub build : List R → ℕ → LookupIndex
  unfolding build_from
  build rows column = record { column = column; positions = build_from 0 rows column [] }

unfoldable pub matching : LookupIndex → Text → List ℕ
unfolding positions_of
matching index key = positions_of key index.positions
