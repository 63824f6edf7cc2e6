-- ===== src/Reconcile/Apply.antt =====
-- packages/rust/src/db.rs (`reconcile_rows`): the statements that carry out the plan. `S` is the state
-- of the database; the statements are parameters, which give `none` for an error of the database. The
-- plan and the cells are those after `as_stored`. A table whose rowid is also one of its columns is
-- left aside: there an inserted row's own cell can be the rowid that the database chose.
pub mod Steps
pub mod Updates
pub mod Merge
pub mod Distinct
pub mod Rows
use dirsql.Prelude.{
  ℕ, zero, suc, ◌≡◌, Bool, true, false, ◌&&◌, Option, none, some, List, [], ◌∷◌, ◌++◌, map,
  get_elem?, if◌then◌else◌,
}
use dirsql.Prelude.Int.{ℤ, eq_ℤ}
use dirsql.Value.{Value}
use dirsql.Reconcile.{StoredRow, Plan, set_elem, stored_at, cells_at}

-- What an `UPDATE` does; after a collision the state is as it was.
pub data Updated (S : Type 0) : Type 0 where
  wrote : S → Updated S
  collided : Updated S
  refused : Updated S

-- `cells[i] = value`, for each pair.
unfoldable pub assign_all : {F : Type 0} → List (ℕ × Value F) → List (Value F) → List (Value F)
unfolding set_elem
assign_all [] cells = cells
assign_all ((i, value) ∷ pairs) cells = assign_all pairs (set_elem i value cells)

-- The statements on the table, and what a row holds that has a rowid.
pub record Statements (S F : Type 0) : Type 0 where
  pub delete : S → ℤ → Option S
  pub update : S → ℤ → List (ℕ × Value F) → Updated S
  pub replace : S → ℤ → List (Value F) → Option S
  pub insert : S → List (Value F) → Option (S × ℤ)
  pub row_at : S → ℤ → Option (List (Value F))

-- What the database documents of the statements.
pub record StatementLaws {S F : Type 0} (sql : Statements S F) : Type 0 where
  pub delete-row_at :
      (s t : S) (rowid r : ℤ)
      → sql.delete s rowid ≡ some t
      → sql.row_at t r ≡ (if eq_ℤ rowid r then none else sql.row_at s r)
  pub update-other :
      (s t : S) (rowid r : ℤ) (pairs : List (ℕ × Value F))
      → sql.update s rowid pairs ≡ wrote t
      → eq_ℤ rowid r ≡ false
      → sql.row_at t r ≡ sql.row_at s r
  pub update-row_at :
      (s t : S) (rowid : ℤ) (pairs : List (ℕ × Value F)) (cells : List (Value F))
      → sql.update s rowid pairs ≡ wrote t
      → sql.row_at s rowid ≡ some cells
      → sql.row_at t rowid ≡ some (assign_all pairs cells)
  pub replace-row_at :
      (s t : S) (rowid r : ℤ) (cells : List (Value F))
      → sql.replace s rowid cells ≡ some t
      → sql.row_at t r ≡ (if eq_ℤ rowid r then some cells else sql.row_at s r)
  pub insert-fresh :
      (s t : S) (rowid : ℤ) (cells : List (Value F))
      → sql.insert s cells ≡ some (t, rowid)
      → sql.row_at s rowid ≡ none
  pub insert-row_at :
      (s t : S) (rowid r : ℤ) (cells : List (Value F))
      → sql.insert s cells ≡ some (t, rowid)
      → sql.row_at t r ≡ (if eq_ℤ rowid r then some cells else sql.row_at s r)

-- `Vec::is_empty`
abbrev pub is_empty : {A : Type 0} → List A → Bool
is_empty [] = true
is_empty (x ∷ xs) = false

-- `RowChanges::is_empty`, whose lists have an element for each of the plan's.
abbrev pub is_unchanged : Plan → Bool
is_unchanged plan = is_empty plan.removed && is_empty plan.added && is_empty plan.updated

infixl 5 ◌>>=◌
abbrev pub ◌>>=◌ : {A B : Type 0} → Option A → (A → Option B) → Option B
none >>= k = none
some a >>= k = k a

unfoldable pub bound_pairs : {F : Type 0} → List (Value F) → List ℕ → List (ℕ × Value F)
bound_pairs cells [] = []
bound_pairs cells (i ∷ at) = elim (get_elem? cells i) [
  | none ↦ bound_pairs cells at
  | some value ↦ (i, value) ∷ bound_pairs cells at
]

module _ {F : Type 0} (stored : List (StoredRow F)) (rows : List (List (Value F)))
    (compared : List ℕ) where
  -- `rows.cells[index][i]`, bound for each compared column.
  unfoldable pub assignments : ℕ → List (ℕ × Value F)
  unfolding bound_pairs cells_at
  assignments index = bound_pairs (cells_at rows index) compared

  -- The closure `merged`.
  unfoldable pub merged : ℕ → ℕ → List (Value F)
  unfolding stored_at assign_all assignments
  merged at index = assign_all (assignments index) (stored_at stored at).1

  module _ {S : Type 0} (sql : Statements S F) where
    unfoldable pub delete_rows : List ℕ → S → Option S
    unfolding stored_at
    delete_rows [] s = some s
    delete_rows (at ∷ indexes) s = do
      t ← sql.delete s (stored_at stored at).0
      delete_rows indexes t

    -- The loop of updates gives the pairs that it found blocked.
    unfoldable pub update_rows : List (ℕ × ℕ) → List (ℕ × ℕ) → S → Option (S × List (ℕ × ℕ))
    unfolding stored_at assignments
    update_rows [] blocked s = some (s, blocked)
    update_rows ((at, index) ∷ updated) blocked s =
        elim (sql.update s (stored_at stored at).0 (assignments index)) [
          | wrote t ↦ update_rows updated blocked t
          | collided ↦ update_rows updated (blocked ++ (at, index) ∷ []) s
          | refused ↦ none
        ]

    unfoldable pub replace_rows : List (ℕ × ℕ) → S → Option S
    unfolding stored_at merged
    replace_rows [] s = some s
    replace_rows ((at, index) ∷ blocked) s = do
      t ← sql.replace s (stored_at stored at).0 (merged at index)
      replace_rows blocked t

    unfoldable pub insert_rows : List ℕ → List ℤ → S → Option (S × List ℤ)
    unfolding cells_at set_elem
    insert_rows [] placed s = some (s, placed)
    insert_rows (index ∷ added) placed s = do
      (t, rowid) ← sql.insert s (cells_at rows index)
      insert_rows added (set_elem index rowid placed) t

    -- The body of `if !updated.is_empty()`; for no updates it does nothing.
    unfoldable pub write_updates : List (ℕ × ℕ) → S → Option S
    unfolding update_rows delete_rows replace_rows
    write_updates updated s = do
      (t, blocked) ← update_rows updated [] s
      deleted ← delete_rows (map (λ pair. pair.0) blocked) t
      replace_rows blocked deleted

    -- `reconcile_rows` after its plan.
    unfoldable pub apply_plan : Plan → S → Option (S × List ℤ)
    unfolding delete_rows write_updates insert_rows
    apply_plan plan s = if is_unchanged plan then some (s, plan.placed) else do
      deleted ← delete_rows plan.removed s
      updated ← write_updates plan.updated deleted
      insert_rows plan.added plan.placed updated
