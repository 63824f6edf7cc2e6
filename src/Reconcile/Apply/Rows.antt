-- ===== src/Reconcile/Apply/Rows.antt =====
-- packages/rust/src/db.rs (`reconcile_rows`): what is stored when the plan has been carried out.
use dirsql.Prelude.{
  ℕ, ◌<◌, ◌≡◌, refl, sym, ap, ap₂, ◌∙◌, inl, inr, true, false, ◌&&◌, Option, some, List, [], ◌∷◌,
  Text, text_eq_iff, get_elem?, length, all, if◌then◌else◌, ltb, ◌==◌, arith, Bool-cases,
}
use dirsql.Prelude.Int.{ℤ}
use dirsql.Value.{Value}
use dirsql.Reconcile.{
  StoredRow, ShapedRows, Plan, stored_at, compared, ident, is_changed, plan_rows,
}
use dirsql.Reconcile.Apply.Distinct.{distinct_rowids, distinct-apart, stored_at-get, cells_at-get}
use dirsql.Reconcile.Indexes.{has_index, updates_of, get-length}
use dirsql.Reconcile.Placed.Rows.{plan_rows-IsPlaced, plan_rows-within}
use dirsql.Reconcile.Apply.{
  Statements, StatementLaws, ◌>>=◌, is_empty, is_unchanged, assign_all, bound_pairs, assignments,
  merged, update_rows, replace_rows, delete_rows, insert_rows, write_updates, apply_plan,
}
use dirsql.Reconcile.Apply.Steps.{bound, is_other, is_apart, delete_rows-other, insert_rows-kept}
use dirsql.Reconcile.Apply.Updates.{
  write_updates-other, write_updates-mine, insert_rows-placed, insert_rows-added,
}
use dirsql.Reconcile.Apply.Merge.{ident-assign_all}

module _ {F : Type 0} (stored : List (StoredRow F)) (rows : List (List (Value F)))
    (compared : List ℕ) {S : Type 0} (sql : Statements S F) (laws : StatementLaws sql) where
  all-apart :
      (a : ℕ) (indexes : List ℕ)
      → distinct_rowids stored ≡ true
      → a < length stored
      → all (λ b. ltb b (length stored)) indexes ≡ true
      → has_index a indexes ≡ false
      → all (is_apart stored rows compared sql laws (stored_at stored a).0) indexes ≡ true
  all-apart a [] h la within absent = refl
  all-apart a (b ∷ indexes) h la within absent =
      let here = distinct-apart stored a b h la (ground (arith, within)) (ground (arith, absent)) in
      ground
        (arith, here, all-apart a indexes h la (ground (arith, within)) (ground (arith, absent)))

  all-other :
      (a : ℕ) (pairs : List (ℕ × ℕ))
      → distinct_rowids stored ≡ true
      → a < length stored
      → all (λ pair. ltb pair.0 (length stored)) pairs ≡ true
      → all (is_other stored rows compared sql laws a (stored_at stored a).0) pairs ≡ true
  all-other a [] h la within = refl
  all-other a ((b, j) ∷ pairs) h la within =
      let rest = all-other a pairs h la (ground (arith, within)) in
      elim (Bool-cases (b == a)) [
        | inl same ↦ ground (arith, same, rest)
        | inr apart ↦
            let here = distinct-apart stored a b h la (ground (arith, within)) apart in
            ground (arith, here, rest)
      ]

  no_parts :
      (removed added : List ℕ) (updated : List (ℕ × ℕ)) (ends placed : List ℤ) (s t : S)
      → (is_empty removed && is_empty added && is_empty updated) ≡ true
      → ◌≡◌ {A = Option (S × List ℤ)} (some (s, ends)) (some (t, placed))
      → (u v : S) × (delete_rows stored rows compared sql removed s ≡ some u)
        × (write_updates stored rows compared sql updated u ≡ some v)
        × (insert_rows stored rows compared sql added ends v ≡ some (t, placed))
  unfolding delete_rows write_updates insert_rows update_rows replace_rows
  no_parts [] [] [] ends placed s t h e = (s, s, refl, refl, e)
  no_parts (b ∷ removed) added updated ends placed s t h e = ground (arith, h)
  no_parts [] (b ∷ added) updated ends placed s t h e = ground (arith, h)
  no_parts [] [] (pair ∷ updated) ends placed s t h e = ground (arith, h)

  -- What carries out a plan deletes, then updates, then inserts, also when there is nothing to do.
  three_parts :
      (plan : Plan) (s t : S) (placed : List ℤ)
      → apply_plan stored rows compared sql plan s ≡ some (t, placed)
      → (u v : S) × (delete_rows stored rows compared sql plan.removed s ≡ some u)
        × (write_updates stored rows compared sql plan.updated u ≡ some v)
        × (insert_rows stored rows compared sql plan.added plan.placed v ≡ some (t, placed))
  unfolding apply_plan
  three_parts plan s t placed e = elim (Bool-cases (is_unchanged plan)) [
    | inl none_changed ↦
        no_parts plan.removed plan.added plan.updated plan.placed placed s t none_changed
          (let e' = rw none_changed at e in e')
    | inr some_changed ↦
        let (u, first, more) =
          bound (delete_rows stored rows compared sql plan.removed s)
            (λ u.
              write_updates stored rows compared sql plan.updated u
              >>= insert_rows stored rows compared sql plan.added plan.placed)
            (t, placed) (let e' = rw some_changed at e in e') in
        let (v, second, third) =
          bound (write_updates stored rows compared sql plan.updated u)
            (insert_rows stored rows compared sql plan.added plan.placed) (t, placed) more in
        (u, v, first, second, third)
  ]

module _ {F : Type 0} (debug : List (Value F) → Text) (stored : List (StoredRow F)) {S : Type 0}
    (sql : Statements S F) (laws : StatementLaws sql) where
  -- The database holds each stored row, with a cell for each column.
  abbrev pub Holds : S → List Text → Type 0
  Holds s columns =
      (a : ℕ) (row : StoredRow F)
      → get_elem? stored a ≡ some row
      → (sql.row_at s row.0 ≡ some row.1) × (length row.1 ≡ length columns)

  -- The row that a rowid list names for a new row has the new row's emitted cells.
  abbrev pub IsStored : List ℕ → List ℤ → S → ℕ → List (Value F) → Type 0
  IsStored among placed t i cells =
      (rowid : ℤ) × (now : List (Value F)) × (get_elem? placed i ≡ some rowid)
      × (sql.row_at t rowid ≡ some now)
      × (ident debug now among ≡ ident debug cells among)

  merged-ident :
      (rows : List (List (Value F))) (among : List ℕ) (i a : ℕ) (cells : List (Value F))
      (row : StoredRow F)
      → stored_at stored a ≡ row
      → get_elem? rows i ≡ some cells
      → length row.1 ≡ length cells
      → ident debug (merged stored rows among a i) among ≡ ident debug cells among
  unfolding merged assignments
  merged-ident rows among i a cells row same new sizes =
      ap₂ (λ fresh old. ident debug (assign_all (bound_pairs fresh among) old) among)
        (cells_at-get rows i cells new) (ap (λ x. x.1) same)
      ∙ ident-assign_all debug cells row.1 among sizes

  alike-ident :
      (old cells : List (Value F)) (among : List ℕ)
      → is_changed debug old cells among ≡ false
      → ident debug old among ≡ ident debug cells among
  unfolding is_changed
  alike-ident old cells among e =
      (text_eq_iff (ident debug old among) (ident debug cells among)).0 (ground (arith, e))

  -- A new row that has a stored row's place.
  updated-IsStored :
      (rows : List (List (Value F))) (among : List ℕ) (plan : Plan) (s u v t : S) (placed : List ℤ)
      (i a : ℕ) (cells : List (Value F)) (row : StoredRow F)
      → distinct_rowids stored ≡ true
      → all (λ b. ltb b (length stored)) plan.removed ≡ true
      → all (λ pair. ltb pair.0 (length stored)) plan.updated ≡ true
      → sql.row_at s row.0 ≡ some row.1
      → length row.1 ≡ length cells
      → get_elem? rows i ≡ some cells
      → get_elem? stored a ≡ some row
      → get_elem? placed i ≡ some row.0
      → has_index a plan.removed ≡ false
      → updates_of a plan.updated ≡ (if is_changed debug row.1 cells among then i ∷ [] else [])
      → delete_rows stored rows among sql plan.removed s ≡ some u
      → write_updates stored rows among sql plan.updated u ≡ some v
      → insert_rows stored rows among sql plan.added plan.placed v ≡ some (t, placed)
      → IsStored among placed t i cells
  updated-IsStored rows among plan s u v t placed i a cells row distinct removed updated here sizes
        new there is_placed absent changes first second third =
      let low = get-length stored a row there in
      let same = stored_at-get stored a row there in
      let others = all-other stored rows among sql laws a plan.updated distinct low updated in
      let left =
        delete_rows-other stored rows among sql laws (stored_at stored a).0 plan.removed s u
          (all-apart stored rows among sql laws a plan.removed distinct low removed absent) first in
      let held : sql.row_at u (stored_at stored a).0 ≡ some (stored_at stored a).1 =
        left ∙ rw same here in
      elim (Bool-cases (is_changed debug row.1 cells among)) [
        | inl differs ↦
            let now =
              write_updates-mine stored rows among sql laws a i plan.updated u v others
                (changes ∙ ap (λ c. if c then i ∷ [] else []) differs) held second in
            (
              row.0,
              merged stored rows among a i,
              is_placed,
              insert_rows-kept stored rows among sql laws plan.added plan.placed placed v t row.0
                  (merged stored rows among a i) third
                  (ap (λ x. sql.row_at v x.0) (sym same) ∙ now),
              merged-ident rows among i a cells row same new sizes,
            )
        | inr alike ↦
            let kept =
              write_updates-other stored rows among sql laws a plan.updated u v others
                (changes ∙ ap (λ c. if c then i ∷ [] else []) alike) second in
            (
              row.0,
              row.1,
              is_placed,
              insert_rows-kept stored rows among sql laws plan.added plan.placed placed v t row.0
                  row.1 third
                  (ap (λ x. sql.row_at v x.0) (sym same) ∙ kept ∙ held ∙ ap (λ x. some x.1) same),
              alike-ident row.1 cells among alike,
            )
      ]

  -- When no statement fails, every new row is stored: the database has a row at the rowid given for it,
  -- with the new row's emitted cells. The stored rows have distinct rowids and are in the database, and
  -- the rows have a cell for each column.
  pub apply_plan-IsStored :
      (rows : ShapedRows F) (key : Option (List ℕ)) (s t : S) (placed : List ℤ) (i : ℕ)
      (cells : List (Value F))
      → distinct_rowids stored ≡ true
      → Holds s rows.columns
      → get_elem? rows.cells i ≡ some cells
      → length cells ≡ length rows.columns
      → apply_plan stored rows.cells (compared rows) sql (plan_rows debug stored rows key) s
        ≡ some (t, placed)
      → IsStored (compared rows) placed t i cells
  apply_plan-IsStored rows key s t placed i cells distinct holds new sizes run =
      let plan = plan_rows debug stored rows key in
      let (u, v, first, second, third) =
        three_parts stored rows.cells (compared rows) sql laws plan s t placed run in
      let (removed, updated, places) = plan_rows-within debug stored rows key in
      elim (plan_rows-IsPlaced debug stored rows key i cells new) [
        | inl added ↦
            let low = get-length rows.cells i cells new in
            let (rowid, where_placed, there) =
              insert_rows-added stored rows.cells (compared rows) sql laws plan.added plan.placed
                placed v t i third (omega (arith, low, places)) added in
            (
              rowid,
              cells,
              where_placed,
              there ∙ ap some (cells_at-get rows.cells i cells new),
              refl,
            )
        | inr (a, row, there, where_placed, same, stays, not_added, changes) ↦
            let (here, columns) = holds a row there in
            updated-IsStored rows.cells (compared rows) plan s u v t placed i a cells row distinct
              removed updated here (columns ∙ sym sizes) new there
              (insert_rows-placed stored rows.cells (compared rows) sql laws plan.added plan.placed
                  placed v t i third not_added
                ∙ where_placed)
              stays changes first second third
      ]
