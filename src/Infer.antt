-- ===== src/Infer.antt =====
-- packages/rust/src/infer.rs: the columns of a table inferred from rows of JSON. `HashMap`s are
-- association lists, and a row is its pairs in the order in which the parser printed them.
pub mod Types
pub mod Reference
pub mod Columns
use dirsql.Prelude.{
  ℕ, zero, suc, ◌-◌, Bool, true, false, Option, none, some, List, [], ◌∷◌, ◌++◌, map, Text, codes,
  text_eq, length, to_ascii_lowercase, if◌then◌else◌,
}
use dirsql.Value.{Value}
use dirsql.Json.{Json, null, bool, number, float, string, nested, json_to_value}
use dirsql.SqlLiteral.{quote_identifier}

pub data SqlType : Type 0 where
  text integer real : SqlType

pub as_str : SqlType → Text
as_str text = codes "TEXT"
as_str integer = codes "INTEGER"
as_str real = codes "REAL"

pub record Column : Type 0 where
  pub name : Text
  pub ty : SqlType

pub data Observed : Type 0 where
  untyped : Observed
  typed : SqlType → Observed
  conflict : Observed

abbrev pub same_type : SqlType → SqlType → Bool
same_type text text = true
same_type integer integer = true
same_type real real = true
same_type _ _ = false

abbrev pub JsonRow : Type 0 → Type 0
JsonRow F = List (Text × Json F)

module _ {F : Type 0} where
  pub value_type : Json F → Option SqlType
  value_type null = none
  value_type (bool b) = some integer
  value_type (number i) = some integer
  value_type (float f) = some real
  value_type (string s) = some text
  value_type (nested s) = some text

-- The `match` of `observe` for a value that has a type.
pub observe_type : Observed → SqlType → Observed
observe_type untyped ty = typed ty
observe_type (typed seen) ty = if same_type seen ty then typed seen else conflict
observe_type conflict ty = conflict

observe_option : Observed → Option SqlType → Observed
unfolding observe_type
observe_option o none = o
observe_option o (some ty) = observe_type o ty

pub observe : {F : Type 0} → Observed → Json F → Observed
unfolding observe_option value_type
observe o value = observe_option o (value_type value)

pub resolve : Observed → SqlType
resolve (typed ty) = ty
resolve untyped = text
resolve conflict = text

-- `str::to_ascii_lowercase`
abbrev pub fold : Text → Text
fold s = map to_ascii_lowercase s

pub lookup : Text → List (Text × ℕ) → Option ℕ
lookup k [] = none
lookup k ((j, n) ∷ m) = if text_eq j k then some n else lookup k m

-- The variables of `infer_schema`.
pub record Inference : Type 0 where
  pub columns : List (Text × Observed)
  pub by_spelling : List (Text × ℕ)
  pub by_folded : List (Text × ℕ)

abbrev pub no_columns : Inference
no_columns = record { columns = []; by_spelling = []; by_folded = [] }

-- `by_folded.entry(…).or_insert_with(…)`, with the index that it holds then.
folded_entry : Text → Option ℕ → Inference → Inference × ℕ
folded_entry key (some i) s = (s, i)
folded_entry key none s = (
  record s {
    columns = s.columns ++ (key, untyped) ∷ [];
    by_folded = (fold key, length s.columns) ∷ s.by_folded;
  },
  length s.columns,
)

-- `by_spelling.entry(…).or_insert_with(…)`, with the index that it holds then.
spelling_entry : Text → Option ℕ → Inference → Inference × ℕ
unfolding folded_entry lookup
spelling_entry key (some i) s = (s, i)
spelling_entry key none s =
    let r = folded_entry key (lookup (fold key) s.by_folded) s in
    (record r.0 { by_spelling = (key, r.1) ∷ r.0.by_spelling }, r.1)

module _ {F : Type 0} where
  -- `columns[index].1` observes the value.
  pub observe_at : ℕ → Json F → List (Text × Observed) → List (Text × Observed)
  unfolding observe
  observe_at i value [] = []
  observe_at zero value ((name, o) ∷ columns) = (name, observe o value) ∷ columns
  observe_at (suc i) value (c ∷ columns) = c ∷ observe_at i value columns

  pub infer_cell : Text × Json F → Inference → Inference
  unfolding spelling_entry observe_at
  infer_cell (key, value) s =
      let r = spelling_entry key (lookup key s.by_spelling) s in
      record r.0 { columns = observe_at r.1 value r.0.columns }

  pub infer_row : JsonRow F → Inference → Inference
  unfolding infer_cell
  infer_row [] s = s
  infer_row (c ∷ row) s = infer_row row (infer_cell c s)

  pub infer_rows : List (JsonRow F) → Inference → Inference
  unfolding infer_row
  infer_rows [] s = s
  infer_rows (row ∷ rows) s = infer_rows rows (infer_row row s)

abbrev pub to_column : Text × Observed → Column
to_column c = record { name = c.0; ty = resolve c.1 }

pub infer_schema : {F : Type 0} → List (JsonRow F) → List Column
unfolding infer_rows resolve
infer_schema rows = map to_column (infer_rows rows no_columns).columns

cell_value : {F : Type 0} → Option (Json F) → Value F
cell_value none = Value.null
cell_value (some v) = json_to_value v

-- The first value whose key is the column's up to ASCII case.
pub find_key : {F : Type 0} → Text → JsonRow F → Option (Json F)
find_key column [] = none
find_key column ((key, v) ∷ row) =
    if text_eq (fold key) (fold column) then some v else find_key column row

pub cell : {F : Type 0} → JsonRow F → Text → Value F
unfolding cell_value find_key
cell row column = cell_value (find_key column row)

declarations : List Column → Text
unfolding as_str
declarations [] = []
declarations (c ∷ []) = quote_identifier c.name ++ 32 ∷ as_str c.ty
declarations (c ∷ d ∷ columns) =
    (quote_identifier c.name ++ 32 ∷ as_str c.ty) ++ codes ", " ++ declarations (d ∷ columns)

pub declared_schema : List Column → Text
unfolding declarations
declared_schema columns = codes "CREATE TABLE x(" ++ declarations columns ++ codes ")"
