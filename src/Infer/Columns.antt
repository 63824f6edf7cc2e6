-- ===== src/Infer/Columns.antt =====
-- packages/rust/src/infer.rs: which columns `infer_schema` makes, and of which type.
use mathlib.Core.Option
use mathlib.Core.List.{flatten}
use dirsql.Prelude.{
  ◌≡◌, refl, ap, sym, ◌∙◌, Bool, true, false, not, ◌&&◌, Option, none, some, List, [], ◌∷◌, ◌++◌,
  map, any, Text, text_eq, text_eq_iff, arith, Bool-cases, inl, inr, if◌then◌else◌,
}
use dirsql.Json.{Json}
use dirsql.Infer.{Observed, untyped, Column, JsonRow, fold, observe, to_column, infer_schema}
use dirsql.Infer.Types.{agreed, types, observe_all, resolve-observe_all}
use dirsql.Infer.Reference.{note_cell, note_row, note_rows, infer_schema-eq-note_rows}

-- The column with a folded name.
abbrev pub find_column : Text → List Column → Option Column
find_column f [] = none
find_column f (c ∷ columns) = if text_eq (fold c.name) f then some c else find_column f columns

module _ {F : Type 0} where
  -- The first key of the cells with a folded name, as it is spelled there.
  abbrev pub first_spelling : Text → JsonRow F → Option Text
  first_spelling f [] = none
  first_spelling f ((key, value) ∷ cells) =
      if text_eq (fold key) f then some key else first_spelling f cells

  -- All the values under the keys with a folded name.
  abbrev pub values : Text → JsonRow F → List (Json F)
  values f [] = []
  values f ((key, value) ∷ cells) =
      let rest = values f cells in if text_eq (fold key) f then value ∷ rest else rest

  -- The column that the cells call for under a folded name: spelled as first seen, and of the type
  -- on which all its values agree.
  abbrev pub wanted : Text → JsonRow F → Option Column
  wanted f cells =
      Option.map (λ name. record { name = name; ty = agreed (types (values f cells)) })
        (first_spelling f cells)

find_named : Text → List (Text × Observed) → Option (Text × Observed)
find_named f [] = none
find_named f ((name, o) ∷ columns) =
    if text_eq (fold name) f then some (name, o) else find_named f columns

module _ {F : Type 0} where
  -- What a cell makes of the column with the folded name of its key.
  observed : Text → Json F → Option (Text × Observed) → Option (Text × Observed)
  observed key value none = some (key, observe untyped value)
  observed key value (some (name, o)) = some (name, observe o value)

  find_named-note_cell :
      (f key : Text) (value : Json F) (columns : List (Text × Observed))
      → find_named f (note_cell (key, value) columns) ≡ (
          if text_eq (fold key) f
          then observed key value (find_named f columns)
          else find_named f columns)
  unfolding find_named note_cell observed
  find_named-note_cell f key value [] = refl
  find_named-note_cell f key value ((name, o) ∷ columns) = ground (
    arith,
    find_named-note_cell f key value columns,
    text_eq_iff (fold name) (fold key),
    text_eq_iff (fold name) f,
    text_eq_iff (fold key) f,
  )

  after : Text → JsonRow F → Option (Text × Observed) → Option (Text × Observed)
  after f cells (some (name, o)) = some (name, observe_all o (values f cells))
  after f cells none =
      Option.map (λ name. (name, observe_all untyped (values f cells))) (first_spelling f cells)

  find_named-note_row :
      (f : Text) (cells : JsonRow F) (columns : List (Text × Observed))
      → find_named f (note_row cells columns) ≡ after f cells (find_named f columns)
  unfolding note_row after observed
  find_named-note_row f [] columns = ground arith
  find_named-note_row f ((key, value) ∷ cells) columns = ground (
    arith,
    find_named-note_row f cells (note_cell (key, value) columns),
    find_named-note_cell f key value columns,
  )

  note_row-append :
      (a b : JsonRow F) (columns : List (Text × Observed))
      → note_row (a ++ b) columns ≡ note_row b (note_row a columns)
  unfolding note_row
  note_row-append [] b columns = refl
  note_row-append (c ∷ a) b columns = note_row-append a b (note_cell c columns)

  note_rows-eq-note_row :
      (rows : List (JsonRow F)) (columns : List (Text × Observed))
      → note_rows rows columns ≡ note_row (flatten rows) columns
  unfolding note_rows note_row flatten
  note_rows-eq-note_row [] columns = refl
  note_rows-eq-note_row (row ∷ rows) columns =
      note_rows-eq-note_row rows (note_row row columns)
      ∙ sym (note_row-append row (flatten rows) columns)

find_column-map :
    (f : Text) (columns : List (Text × Observed))
    → find_column f (map to_column columns) ≡ Option.map to_column (find_named f columns)
unfolding find_named
find_column-map f [] = refl
find_column-map f ((name, o) ∷ columns) = ground (arith, find_column-map f columns)

typed_column :
    {F : Type 0} (f : Text) (cells : JsonRow F) (o : Option Text)
    → Option.map to_column (Option.map (λ name. (name, observe_all untyped (values f cells))) o)
      ≡ Option.map (λ name. record { name = name; ty = agreed (types (values f cells)) }) o
typed_column f cells none = refl
typed_column f cells (some name) =
    ap (λ t. some (record { name = name; ty = t })) (resolve-observe_all (values f cells))

to_column-after :
    {F : Type 0} (f : Text) (cells : JsonRow F)
    → Option.map to_column (after f cells none) ≡ wanted f cells
unfolding after
to_column-after f cells = typed_column f cells (first_spelling f cells)

-- Under each folded name the inferred schema has the column that the rows call for, and none where
-- they have no such key: spelled as first seen, INTEGER, REAL or TEXT where all its typed values
-- agree on that, and TEXT otherwise.
pub infer_schema-wanted :
    {F : Type 0} (rows : List (JsonRow F)) (f : Text)
    → find_column f (infer_schema rows) ≡ wanted f (flatten rows)
unfolding find_named
infer_schema-wanted rows f =
    ap (find_column f)
      (infer_schema-eq-note_rows rows ∙ ap (map to_column) (note_rows-eq-note_row rows []))
    ∙ find_column-map f (note_row (flatten rows) [])
    ∙ ap (Option.map to_column) (find_named-note_row f (flatten rows) [])
    ∙ to_column-after f (flatten rows)

-- Whether no two columns have names that differ in ASCII case only.
abbrev pub distinct : List Column → Bool
distinct [] = true
distinct (c ∷ columns) =
    not (any (λ d. text_eq (fold d.name) (fold c.name)) columns) && distinct columns

any-note_cell :
    {F : Type 0} (f key : Text) (value : Json F) (columns : List (Text × Observed))
    → text_eq (fold key) f ≡ false
    → any (λ d. text_eq (fold d.name) f) (map to_column (note_cell (key, value) columns))
      ≡ any (λ d. text_eq (fold d.name) f) (map to_column columns)
unfolding note_cell
any-note_cell f key value [] h = ground arith
any-note_cell f key value ((name, o) ∷ columns) h =
    ground (arith, any-note_cell f key value columns)

and_parts : (a b : Bool) → (a && b) ≡ true → (a ≡ true) × (b ≡ true)
and_parts a b h = ground arith

and_both : (a b : Bool) → a ≡ true → b ≡ true → (a && b) ≡ true
and_both a b p q = ground arith

text_eq-swap : (s t : Text) → text_eq s t ≡ false → text_eq t s ≡ false
text_eq-swap s t h = ground (arith, text_eq_iff s t, text_eq_iff t s)

distinct-note_cell :
    {F : Type 0} (c : Text × Json F) (columns : List (Text × Observed))
    → distinct (map to_column columns) ≡ true
    → distinct (map to_column (note_cell c columns)) ≡ true
unfolding note_cell
distinct-note_cell (key, value) [] h = refl
distinct-note_cell (key, value) ((name, o) ∷ columns) h =
    elim (Bool-cases (text_eq (fold name) (fold key))) [
      | inl e ↦ rw e h
      | inr e ↦ rw e (
          let parts =
            and_parts (not (any (λ d. text_eq (fold d.name) (fold name)) (map to_column columns))) _
              h in
          let kept =
            any-note_cell (fold name) key value columns (text_eq-swap (fold name) (fold key) e) in
          and_both _ _ (ap not kept ∙ parts.0) (distinct-note_cell (key, value) columns parts.1))
    ]

distinct-note_row :
    {F : Type 0} (cells : JsonRow F) (columns : List (Text × Observed))
    → distinct (map to_column columns) ≡ true
    → distinct (map to_column (note_row cells columns)) ≡ true
unfolding note_row
distinct-note_row [] columns h = h
distinct-note_row (c ∷ cells) columns h =
    distinct-note_row cells (note_cell c columns) (distinct-note_cell c columns h)

-- No two inferred columns have names that differ in ASCII case only, so SQLite can declare them
-- all.
pub infer_schema-distinct :
    {F : Type 0} (rows : List (JsonRow F)) → distinct (infer_schema rows) ≡ true
infer_schema-distinct rows =
    ap distinct
      (infer_schema-eq-note_rows rows ∙ ap (map to_column) (note_rows-eq-note_row rows []))
    ∙ distinct-note_row (flatten rows) [] refl
