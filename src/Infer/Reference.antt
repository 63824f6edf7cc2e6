-- ===== src/Infer/Reference.antt =====
-- packages/rust/src/infer.rs: the two maps of `infer_schema` only save work.
use mathlib.Core.Option
use dirsql.Prelude.{
  ℕ, zero, suc, ◌≡◌, refl, ap, sym, ◌∙◌, Option, none, some, List, [], ◌∷◌, ◌++◌, map, Text,
  text_eq, text_eq_iff, text_eq_refl, length, arith, if◌then◌else◌,
}
use dirsql.Json.{Json}
use dirsql.Infer.{
  Observed, untyped, JsonRow, Inference, no_columns, fold, lookup, observe, observe_at,
  folded_entry, spelling_entry, infer_cell, infer_row, infer_rows, to_column, infer_schema,
}

-- Without the maps: the first column with the key's folded name observes the value, or the key
-- becomes the last column.
unfoldable pub note_cell :
    {F : Type 0} → Text × Json F → List (Text × Observed) → List (Text × Observed)
note_cell (key, value) [] = (key, observe untyped value) ∷ []
note_cell (key, value) ((name, o) ∷ columns) =
    if text_eq (fold name) (fold key)
    then (name, observe o value) ∷ columns
    else (name, o) ∷ note_cell (key, value) columns

unfoldable pub note_row : {F : Type 0} → JsonRow F → List (Text × Observed) → List (Text × Observed)
unfolding note_cell
note_row [] columns = columns
note_row (c ∷ row) columns = note_row row (note_cell c columns)

unfoldable pub note_rows :
    {F : Type 0} → List (JsonRow F) → List (Text × Observed) → List (Text × Observed)
unfolding note_row
note_rows [] columns = columns
note_rows (row ∷ rows) columns = note_rows rows (note_row row columns)

-- The place of the first column with a folded name.
index_of : Text → List (Text × Observed) → Option ℕ
index_of f [] = none
index_of f ((name, o) ∷ columns) =
    if text_eq (fold name) f then some 0 else Option.map suc (index_of f columns)

index_of-observe_at :
    {F : Type 0} (f : Text) (i : ℕ) (value : Json F) (columns : List (Text × Observed))
    → index_of f (observe_at i value columns) ≡ index_of f columns
unfolding index_of observe_at
index_of-observe_at f i value [] = refl
index_of-observe_at f zero value ((name, o) ∷ columns) = refl
index_of-observe_at f (suc i) value ((name, o) ∷ columns) =
    rw (index_of-observe_at f i value columns)

index_of-snoc :
    (f key : Text) (o : Observed) (columns : List (Text × Observed))
    → index_of f (columns ++ (key, o) ∷ []) ≡ elim (index_of f columns) [
      | some i ↦ some i
      | none ↦ if text_eq (fold key) f then some (length columns) else none
    ]
unfolding index_of
index_of-snoc f key o [] = ground arith
index_of-snoc f key o ((name, p) ∷ columns) = ground (arith, index_of-snoc f key o columns)

note_cell-found :
    {F : Type 0} (key : Text) (value : Json F) (columns : List (Text × Observed)) (i : ℕ)
    → index_of (fold key) columns ≡ some i
    → observe_at i value columns ≡ note_cell (key, value) columns
unfolding note_cell index_of observe_at
note_cell-found key value [] i h = cc
note_cell-found key value ((name, o) ∷ columns) zero h = ground arith
note_cell-found key value ((name, o) ∷ columns) (suc i) h =
    ground (arith, note_cell-found key value columns i)

note_cell-absent :
    {F : Type 0} (key : Text) (value : Json F) (columns : List (Text × Observed))
    → index_of (fold key) columns ≡ none
    → observe_at (length columns) value (columns ++ (key, untyped) ∷ [])
      ≡ note_cell (key, value) columns
unfolding note_cell index_of observe_at
note_cell-absent key value [] h = refl
note_cell-absent key value ((name, o) ∷ columns) h =
    ground (arith, note_cell-absent key value columns)

-- What the maps hold: the folded one knows the place of each column, and the other knows the place
-- of the column of each spelling that it has.
record Indexed (s : Inference) : Type 0 where
  folded : (f : Text) → lookup f s.by_folded ≡ index_of f s.columns
  spelled :
      (k : Text) (i : ℕ) → lookup k s.by_spelling ≡ some i → index_of (fold k) s.columns ≡ some i

-- An entry that the key has now: its index is the place of the key's column, and observing there
-- is what the reference does.
record IsEntry {F : Type 0} (key : Text) (value : Json F) (s : Inference) (r : Inference × ℕ)
    : Type 0 where
  indexed : Indexed r.0
  place : index_of (fold key) r.0.columns ≡ some r.1
  observed : observe_at r.1 value r.0.columns ≡ note_cell (key, value) s.columns

new_column-Indexed :
    (key : Text) (s : Inference)
    → Indexed s
    → index_of (fold key) s.columns ≡ none
    → Indexed (folded_entry key none s).0
unfolding folded_entry lookup
new_column-Indexed key s h e = record {
  folded = λ f.
      ground (arith, index_of-snoc f key untyped s.columns, h.folded f, text_eq_iff (fold key) f);
  spelled = λ k i p. ground (arith, index_of-snoc (fold k) key untyped s.columns, h.spelled k i p);
}

module _ {F : Type 0} (key : Text) (value : Json F) (s : Inference) (h : Indexed s) where
  folded_entry-IsEntry :
      (o : Option ℕ)
      → lookup (fold key) s.by_folded ≡ o
      → IsEntry key value s (folded_entry key o s)
  unfolding folded_entry
  folded_entry-IsEntry (some i) e =
      let place = sym (h.folded (fold key)) ∙ e in
      record { indexed = h; place = place; observed = note_cell-found key value s.columns i place }
  folded_entry-IsEntry none e =
      let absent = sym (h.folded (fold key)) ∙ e in
      record {
        indexed = new_column-Indexed key s h absent;
        place =
            ground (arith, index_of-snoc (fold key) key untyped s.columns, text_eq_refl (fold key));
        observed = note_cell-absent key value s.columns absent;
      }

  spelling_entry-IsEntry :
      (o : Option ℕ) → lookup key s.by_spelling ≡ o → IsEntry key value s (spelling_entry key o s)
  unfolding spelling_entry lookup
  spelling_entry-IsEntry (some i) e =
      let place = h.spelled key i e in
      record { indexed = h; place = place; observed = note_cell-found key value s.columns i place }
  spelling_entry-IsEntry none e =
      let r = folded_entry key (lookup (fold key) s.by_folded) s in
      let found = folded_entry-IsEntry (lookup (fold key) s.by_folded) refl in
      record {
        indexed = record {
          folded = found.indexed.folded;
          spelled =
              λ k i p. ground (arith, found.indexed.spelled k i, found.place, text_eq_iff key k);
        };
        place = found.place;
        observed = found.observed;
      }

  -- A cell does what the reference does, and leaves the maps right.
  infer_cell-note :
      ((infer_cell (key, value) s).columns ≡ note_cell (key, value) s.columns)
      × Indexed (infer_cell (key, value) s)
  unfolding infer_cell
  infer_cell-note =
      let r = spelling_entry key (lookup key s.by_spelling) s in
      let entry = spelling_entry-IsEntry (lookup key s.by_spelling) refl in
      (
        entry.observed,
        record {
          folded = λ f. entry.indexed.folded f ∙ sym (index_of-observe_at f r.1 value r.0.columns);
          spelled = λ k i p.
              index_of-observe_at (fold k) r.1 value r.0.columns ∙ entry.indexed.spelled k i p;
        },
      )

module _ {F : Type 0} where
  infer_row-note :
      (row : JsonRow F) (s : Inference) (columns : List (Text × Observed))
      → Indexed s
      → s.columns ≡ columns
      → ((infer_row row s).columns ≡ note_row row columns) × Indexed (infer_row row s)
  unfolding infer_row note_row
  infer_row-note [] s columns h e = (e, h)
  infer_row-note ((key, value) ∷ row) s columns h e =
      let step = infer_cell-note key value s h in
      infer_row-note row (infer_cell (key, value) s) (note_cell (key, value) columns) step.1
        (step.0 ∙ ap (note_cell (key, value)) e)

  infer_rows-note :
      (rows : List (JsonRow F)) (s : Inference) (columns : List (Text × Observed))
      → Indexed s
      → s.columns ≡ columns
      → (infer_rows rows s).columns ≡ note_rows rows columns
  unfolding infer_rows note_rows
  infer_rows-note [] s columns h e = e
  infer_rows-note (row ∷ rows) s columns h e =
      let step = infer_row-note row s columns h e in
      infer_rows-note rows (infer_row row s) (note_row row columns) step.1 step.0

Indexed-no_columns : Indexed no_columns
unfolding lookup index_of
Indexed-no_columns = record { folded = λ f. refl; spelled = λ k i p. cc }

-- `infer_schema` with its two maps gives the columns that a plain search for the folded name among
-- the columns so far gives: the maps never name another column, nor one that is not there.
pub infer_schema-eq-note_rows :
    {F : Type 0} (rows : List (JsonRow F)) → infer_schema rows ≡ map to_column (note_rows rows [])
unfolding infer_schema
infer_schema-eq-note_rows rows =
    ap (map to_column) (infer_rows-note rows no_columns [] Indexed-no_columns refl)
