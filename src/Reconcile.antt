-- ===== src/Reconcile.antt =====
-- packages/rust/src/db.rs (`reconcile_rows`, `row_key`): which stored rows of a file are kept, updated
-- and deleted for the file's new rows, and which new rows are inserted. `debug` is the standard
-- library's `{:?}` of cells. Every row has a cell for each column, so an index into one is in range;
-- where this model still has to say what an index out of range gives, the source would panic.
pub mod Unclaimed
pub mod Free
pub mod Counts
pub mod Indexes
pub mod Placed
pub mod Apply
use mathlib.Core.List.{filter_map}
use dirsql.Prelude.{
  ℕ, zero, suc, ◌+◌, Bool, true, false, not, ◌&&◌, Option, none, some, List, [], ◌∷◌, ◌++◌, map,
  Text, text_eq, get_elem?, length, all, if◌then◌else◌,
}
use dirsql.Prelude.Int.{ℤ, pos}
use dirsql.Value.{Value, Row, null}
use dirsql.Reconcile.Unclaimed.{push_index, pop_index}

pub record ShapedRows (F : Type 0) : Type 0 where
  pub columns : List Text
  pub cells : List (List (Value F))
  pub emitted : List Bool

pub record RowChanges (F : Type 0) : Type 0 where
  pub removed : List (Row F)
  pub added : List (Row F)
  pub updated : List (Row F × Row F)
  pub keyed : Bool

-- A stored row with its rowid.
abbrev pub StoredRow : Type 0 → Type 0
StoredRow F = ℤ × List (Value F)

unfoldable pub set_elem : {A : Type 0} → ℕ → A → List A → List A
set_elem i a [] = []
set_elem zero a (x ∷ xs) = a ∷ xs
set_elem (suc i) a (x ∷ xs) = x ∷ set_elem i a xs

-- The positions, from `i` on, that the flags mark.
unfoldable pub marked_from : ℕ → List Bool → List ℕ
marked_from i [] = []
marked_from i (mark ∷ marks) =
    let rest = marked_from (suc i) marks in if mark then i ∷ rest else rest

-- `vec![a; n]`, with an element for each of a list's.
abbrev pub repeated : {A B : Type 0} → B → List A → List B
repeated b xs = map (λ x. b) xs

pub record Placement : Type 0 where
  pub unclaimed : List (Text × List ℕ)
  pub claimed : List Bool
  pub placed : List ℤ
  pub added : List ℕ
  pub updated : List (ℕ × ℕ)

pub record Plan : Type 0 where
  pub removed : List ℕ
  pub added : List ℕ
  pub updated : List (ℕ × ℕ)
  pub placed : List ℤ

-- `key.unwrap_or(&compared)`
unfoldable pub match_on : Option (List ℕ) → List ℕ → List ℕ
match_on none among = among
match_on (some key) among = key

module _ {F : Type 0} where
  -- `&stored[at]`
  unfoldable pub stored_at : List (StoredRow F) → ℕ → StoredRow F
  stored_at [] at = (pos 0, [])
  stored_at (row ∷ stored) zero = row
  stored_at (row ∷ stored) (suc at) = stored_at stored at

  -- `&rows.cells[index]`
  unfoldable pub cells_at : List (List (Value F)) → ℕ → List (Value F)
  cells_at [] index = []
  cells_at (cells ∷ rows) zero = cells
  cells_at (cells ∷ rows) (suc index) = cells_at rows index

  unfoldable pub compared : ShapedRows F → List ℕ
  unfolding marked_from
  compared rows = marked_from 0 rows.emitted

  module _ (debug : List (Value F) → Text) where
    unfoldable pub ident : List (Value F) → List ℕ → Text
    ident cells at = debug (filter_map (get_elem? cells) at)

    -- The map of unclaimed rows, filled from the last stored row to the first.
    unfoldable pub unclaimed_from : ℕ → List (StoredRow F) → List ℕ → List (Text × List ℕ)
    unfolding push_index ident
    unclaimed_from i [] at = []
    unclaimed_from i ((rowid, cells) ∷ stored) at =
        push_index (ident cells at) i (unclaimed_from (suc i) stored at)

    unfoldable pub is_changed : List (Value F) → List (Value F) → List ℕ → Bool
    unfolding ident
    is_changed old cells at = not (text_eq (ident old at) (ident cells at))

    -- The arms of the `match` on a popped index.
    unfoldable pub claim_or_add :
        List (StoredRow F)
        → List ℕ
        → ℕ
        → List (Value F)
        → Placement
        → Option (ℕ × List (Text × List ℕ))
        → Placement
    unfolding stored_at is_changed set_elem
    claim_or_add stored compared index cells p none = record p { added = p.added ++ index ∷ [] }
    claim_or_add stored compared index cells p (some (at, unclaimed)) = record p {
      unclaimed = unclaimed;
      claimed = set_elem at true p.claimed;
      placed = set_elem index (stored_at stored at).0 p.placed;
      updated =
          if is_changed (stored_at stored at).1 cells compared
          then p.updated ++ (at, index) ∷ []
          else p.updated;
    }

    unfoldable pub place :
        List (StoredRow F) → List ℕ → List ℕ → ℕ → List (Value F) → Placement → Placement
    unfolding claim_or_add ident
    place stored match_on compared index cells p =
        claim_or_add stored compared index cells p (pop_index (ident cells match_on) p.unclaimed)

    unfoldable pub place_from :
        List (StoredRow F) → List ℕ → List ℕ → ℕ → List (List (Value F)) → Placement → Placement
    unfolding place
    place_from stored match_on compared index [] p = p
    place_from stored match_on compared index (cells ∷ rows) p =
        place_from stored match_on compared (suc index) rows
          (place stored match_on compared index cells p)

    unfoldable pub start : List (StoredRow F) → List (List (Value F)) → List ℕ → Placement
    unfolding unclaimed_from
    start stored rows match_on = record {
      unclaimed = unclaimed_from 0 stored match_on;
      claimed = repeated false stored;
      placed = repeated (pos 0) rows;
      added = [];
      updated = [];
    }

    unfoldable pub plan_of : Placement → Plan
    unfolding marked_from
    plan_of p = record {
      removed = marked_from 0 (map not p.claimed);
      added = p.added;
      updated = p.updated;
      placed = p.placed;
    }

    -- `reconcile_rows` up to its statements: what they will delete, insert and update, and the rowids
    -- of the rows that stay. `key` is what `row_key` gave.
    unfoldable pub plan_rows : List (StoredRow F) → ShapedRows F → Option (List ℕ) → Plan
    unfolding place_from start plan_of compared match_on
    plan_rows stored rows key =
        let at = match_on key (compared rows) in
        plan_of (place_from stored at (compared rows) 0 rows.cells (start stored rows.cells at))
