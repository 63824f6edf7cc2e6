-- ===== src/Differ.antt =====
-- packages/rust/src/differ.rs: the events that turn the old rows of a table into the new ones.
-- `float_eq` is `==` of `f64` and `debug` the standard library's `{:?}` of a row's sorted columns.
-- An `Option` result is `none` where the source panics.
pub mod Bag
pub mod Pool
pub mod Unordered
pub mod Ordered
use mathlib.Core.Option
use mathlib.Core.List.{zip}
use dirsql.Prelude.{
  ℕ, zero, suc, ◌+◌, ◌-◌, ◌*◌, min, Bool, true, false, ◌&&◌, Option, none, some, List, [], ◌∷◌,
  ◌++◌, map, Text, text_le, text_eq, text_le, ltb, ◌==◌, length, drop, if◌then◌else◌,
}
use dirsql.Value.{Value, Row, row_eq}

pub data RowEvent (F : Type 0) : Type 0 where
  insert : Text → Row F → Text → RowEvent F
  update : Text → Row F → Row F → Text → RowEvent F
  delete : Text → Row F → Text → RowEvent F
  error : Option Text → Text → Text → RowEvent F

module _ {F : Type 0} where
  insert_column : Text × Value F → Row F → Row F
  insert_column c [] = c ∷ []
  insert_column c (d ∷ row) = if text_le c.0 d.0 then c ∷ d ∷ row else d ∷ insert_column c row

  -- `columns.sort_by(|a, b| a.0.cmp(b.0))`, a stable sort.
  pub sort_columns : Row F → Row F
  unfolding insert_column
  sort_columns [] = []
  sort_columns (c ∷ row) = insert_column c (sort_columns row)

  pub row_key : (Row F → Text) → Row F → Text
  row_key debug row = debug (sort_columns row)

  -- The three loops that turn rows into events of one kind.
  pub inserts : Text → Text → List (Row F) → List (RowEvent F)
  inserts table file_path rows = map (λ r. insert table r file_path) rows

  pub deletes : Text → Text → List (Row F) → List (RowEvent F)
  deletes table file_path rows = map (λ r. delete table r file_path) rows

  pub updates : Text → Text → List (Row F × Row F) → List (RowEvent F)
  updates table file_path pairs = map (λ p. update table p.0 p.1 file_path) pairs

  pub full_replace : Text → List (Row F) → List (Row F) → Text → List (RowEvent F)
  unfolding deletes inserts
  full_replace table old_rows new_rows file_path =
      deletes table file_path old_rows ++ inserts table file_path new_rows

  pub diff_keyed :
      Text → List (Row F) → List (Row F × Row F) → List (Row F) → Text → List (RowEvent F)
  unfolding deletes updates inserts
  diff_keyed table removed updated added file_path =
      deletes table file_path removed
      ++ (updates table file_path updated ++ inserts table file_path added)

  -- The events for the rows that have no counterpart on the other side.
  pub pair_up : Text → List (Row F) → List (Row F) → Text → List (RowEvent F)
  unfolding deletes updates inserts
  pair_up table unmatched_old unmatched_new file_path =
      let paired = min (length unmatched_old) (length unmatched_new) in
      deletes table file_path (drop paired unmatched_old)
      ++ (updates table file_path (zip unmatched_old unmatched_new)
          ++ inserts table file_path (drop paired unmatched_new))

-- `HashMap<String, usize>`
abbrev pub Counts : Type 0
Counts = List (Text × ℕ)

pub count_of : Text → Counts → Option ℕ
count_of k [] = none
count_of k ((j, n) ∷ pool) = if text_eq j k then some n else count_of k pool

-- `*pool.entry(key).or_default() += 1`
pub increment : Text → Counts → Counts
increment k [] = (k, 1) ∷ []
increment k ((j, n) ∷ pool) = if text_eq j k then (j, n + 1) ∷ pool else (j, n) ∷ increment k pool

-- `*count -= 1` through `pool.get_mut(key)`
pub decrement : Text → Counts → Counts
decrement k [] = []
decrement k ((j, n) ∷ pool) = if text_eq j k then (j, n - 1) ∷ pool else (j, n) ∷ decrement k pool

module _ {F : Type 0} (debug : Row F → Text) where
  -- The first loop: how often each old row occurs.
  pub tally : Counts → List (Row F) → Counts
  tally pool [] = pool
  tally pool (row ∷ rows) = tally (increment (row_key debug row) pool) rows

  keep : Row F → Counts × List (Row F) → Counts × List (Row F)
  keep row r = (r.0, row ∷ r.1)

  -- The second loop: the pool that it leaves, and the new rows without a counterpart.
  pub match_new : Counts → List (Row F) → Counts × List (Row F)
  unfolding keep
  match_new pool [] = (pool, [])
  match_new pool (row ∷ rows) = elim (count_of (row_key debug row) pool) [
    | none ↦ keep row (match_new pool rows)
    | some zero ↦ keep row (match_new pool rows)
    | some (suc n) ↦ match_new (decrement (row_key debug row) pool) rows
  ]

  -- The third loop: the old rows that are left in the pool. `none` is a failure of the `expect`.
  pub match_old : Counts → List (Row F) → Option (List (Row F))
  match_old pool [] = some []
  match_old pool (row ∷ rows) = elim (count_of (row_key debug row) pool) [
    | none ↦ none
    | some zero ↦ match_old pool rows
    | some (suc n) ↦ Option.map (λ r. row ∷ r) (match_old (decrement (row_key debug row) pool) rows)
  ]

  pub diff_unordered : Text → List (Row F) → List (Row F) → Text → Option (List (RowEvent F))
  unfolding tally match_new match_old pair_up
  diff_unordered table old new file_path =
      let pool = tally [] old in
      let (left, unmatched_new) = match_new pool new in
      Option.map (λ unmatched_old. pair_up table unmatched_old unmatched_new file_path)
        (match_old left old)

module _ {F : Type 0} (float_eq : F → F → Bool) where
  -- The first loop of `diff_rows`, over the rows that both sides have.
  pub changed : List (Row F) → List (Row F) → ℕ
  changed (o ∷ old) (n ∷ new) =
      let rest = changed old new in if row_eq float_eq o n then rest else rest + 1
  changed _ _ = 0

  -- The second loop: the pairs at which the sides differ.
  pub changed_pairs : List (Row F) → List (Row F) → List (Row F × Row F)
  changed_pairs (o ∷ old) (n ∷ new) =
      let rest = changed_pairs old new in if row_eq float_eq o n then rest else (o, n) ∷ rest
  changed_pairs _ _ = []

  pub diff_rows : Text → List (Row F) → List (Row F) → Text → List (RowEvent F)
  unfolding changed changed_pairs full_replace
  diff_rows table old_rows new_rows file_path =
      let overlap = length old_rows in
      if ltb (length new_rows) overlap
      then full_replace table old_rows new_rows file_path
      else if ltb 1 overlap && ltb overlap (changed old_rows new_rows * 2)
      then full_replace table old_rows new_rows file_path
      else updates table file_path (changed_pairs old_rows new_rows)
        ++ inserts table file_path (drop overlap new_rows)

  pub diff : Text → Option (List (Row F)) → Option (List (Row F)) → Text → List (RowEvent F)
  unfolding diff_rows
  diff table none none file_path = []
  diff table none (some new_rows) file_path = inserts table file_path new_rows
  diff table (some old_rows) none file_path = deletes table file_path old_rows
  diff table (some old_rows) (some new_rows) file_path = diff_rows table old_rows new_rows file_path
