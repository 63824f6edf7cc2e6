-- ===== src/VtabScaffold/Cursor.antt =====
-- packages/rust/src/vtab_scaffold.rs (`Selection`, `Reading`, `ScaffoldCursor`): a cursor over the
-- rows of one statement. `held` is the chunks of the statement's finished stream: a read of a chunk
-- waits until the scan has made it or is through, so it finds what the finished stream has there.
pub mod Steps
pub mod Run
pub mod Filter
use mathlib.Core.List.{flatten, filter_map}
use dirsql.Prelude.{
  ℕ, zero, suc, ◌+◌, ◌-◌, ◌^◌, Bool, true, false, ◌&&◌, Option, none, some, List, [], ◌∷◌, Text,
  get_elem?, length, leb, ltb, ◌==◌, if◌then◌else◌,
}
use dirsql.RowStream.{Settled, new, get}
use dirsql.VtabScaffold.Plan.{lookup_column, prefetches}
use dirsql.VtabScaffold.Lookup.{LookupIndex, scan_matching, build, matching}

-- The kinds of a filter's argument that `text_key` tells apart.
pub data Argument : Type 0 where
  text : Text → Argument
  other : Argument

unfoldable pub text_key : Argument → Option Text
text_key (text s) = some s
text_key other = none

unfoldable pub first_key : List Argument → Option Text
unfolding text_key
first_key [] = none
first_key (a ∷ args) = text_key a

pub record Reading (R : Type 0) : Type 0 where
  pub n : ℕ
  pub start : ℕ
  pub chunk : Option (List R)

pub data Selection (R : Type 0) : Type 0 where
  every : Reading R → Selection R
  only : List ℕ → Selection R

module _ {R : Type 0} where
  -- `Reading::from`
  pub reading_from : List (List R) → ℕ → ℕ → Reading R
  reading_from chunks n start = record { n = n; start = start; chunk = get_elem? chunks n }

  -- `Reading::done`
  abbrev pub reading_done : Reading R
  reading_done = record { n = 0; start = 0; chunk = none }

  row_of : Option (List R) → ℕ → ℕ → Option R
  row_of none start step = none
  row_of (some chunk) start step = if ltb step start then none else get_elem? chunk (step - start)

  -- `Reading::row`
  pub reading_row : Reading R → ℕ → Option R
  unfolding row_of
  reading_row r step = row_of r.chunk r.start step

  advance : Option (List R) → List (List R) → ℕ → Reading R → Reading R
  unfolding reading_from
  advance none chunks step r = r
  advance (some chunk) chunks step r =
      if leb (r.start + length chunk) step
      then reading_from chunks (r.n + 1) (r.start + length chunk)
      else r

  -- `Reading::advanced`
  pub advanced : Reading R → List (List R) → ℕ → Reading R
  unfolding advance
  advanced r chunks step = advance r.chunk chunks step r

abbrev pub at_eof : ℕ → ℕ → Bool
at_eof step selected = leb selected step

unfoldable pub rowid_of : ℕ → ℕ
rowid_of position = if leb position (2 ^ 63 - 1) then position else 2 ^ 63 - 1

pub record Cursor (R : Type 0) : Type 0 where
  pub rows : Option (List (List R))
  pub settled : Option (Settled R)
  pub scanned : Option ℕ
  pub index : Option LookupIndex
  pub selection : Selection R
  pub step : ℕ

-- `open`
abbrev pub opened : {R : Type 0} → Cursor R
opened = record {
  rows = none;
  settled = none;
  scanned = none;
  index = none;
  selection = every reading_done;
  step = 0;
}

pub is_on : Option LookupIndex → ℕ → Bool
is_on none column = false
is_on (some index) column = index.column == column

pub is_scanned : Option ℕ → ℕ → Bool
is_scanned none column = false
is_scanned (some scanned) column = scanned == column

pub index_matches : Option LookupIndex → Text → List ℕ
index_matches none key = []
index_matches (some index) key = matching index key

module _ {R : Type 0} (held : List (List R)) where
  pub rows_or : Option (List (List R)) → List (List R)
  rows_or none = held
  rows_or (some chunks) = chunks

  pub settled_or : Option (Settled R) → List (List R) → Settled R
  settled_or none chunks = new chunks
  settled_or (some settled) chunks = settled

  -- `rows`: the cursor takes the statement's stream once.
  pub take_rows : Cursor R → Cursor R
  unfolding rows_or
  take_rows c = record c { rows = some (rows_or c.rows) }

  -- `settled`
  pub settle : Cursor R → Cursor R
  unfolding take_rows rows_or settled_or
  settle c = record (take_rows c) { settled = some (settled_or c.settled (rows_or c.rows)) }

  pub settled_rows : Cursor R → List R
  unfolding settled_or rows_or
  settled_rows c = flatten (settled_or c.settled (rows_or c.rows)).chunks

  module _ (row_key : R → ℕ → Option Text) where
    -- `select_by_lookup`, with the selection that it returns put in place.
    pub select_by_lookup : ℕ → Text → Cursor R → Cursor R
    unfolding settle settled_rows is_on is_scanned index_matches
    select_by_lookup column key c =
        let d = settle c in
        let rows = settled_rows c in
        if is_on c.index column
        then record d { selection = only (index_matches c.index key) }
        else if is_scanned c.scanned column
        then record d {
          index = some (build row_key rows column);
          selection = only (matching (build row_key rows column) key);
        }
        else record d {
          scanned = some column;
          selection = only (scan_matching row_key rows column key);
        }

    -- The `match` of `filter`.
    pub select : Option ℕ → Option Text → Cursor R → Cursor R
    unfolding select_by_lookup take_rows rows_or reading_from
    select (some column) (some key) c = select_by_lookup column key c
    select _ _ c = record (take_rows c) { selection = every (reading_from (rows_or c.rows) 0 0) }

    -- `prefetch`: the rows that are handed to the source to be read ahead.
    pub selected_rows : Selection R → Settled R → List R
    selected_rows (only positions) settled = filter_map (get settled) positions
    selected_rows (every reading) settled = flatten settled.chunks

    pub prefetched : Bool → Cursor R → Cursor R × List R
    unfolding settle selected_rows settled_or rows_or
    prefetched false c = (c, [])
    prefetched true c =
        (settle c, selected_rows c.selection (settled_or c.settled (rows_or c.rows)))

    -- `filter`: the cursor, and the rows that are read ahead.
    pub filter : ℕ → List Argument → Cursor R → Cursor R × List R
    unfolding select prefetched first_key
    filter idx_num args c =
        let d = select (lookup_column idx_num) (first_key args) c in
        prefetched (prefetches idx_num) (record d { step = 0 })

  next_selection : Selection R → Option (List (List R)) → ℕ → Selection R
  unfolding advanced
  next_selection (every reading) (some chunks) step = every (advanced reading chunks step)
  next_selection (every reading) none step = every reading
  next_selection (only positions) rows step = only positions

  -- `next`
  pub next : Cursor R → Cursor R
  unfolding next_selection
  next c = record c {
    step = c.step + 1;
    selection = next_selection c.selection c.rows (c.step + 1);
  }

  pub is_none : Option R → Bool
  is_none none = true
  is_none (some row) = false

  -- `eof`
  at_end : Selection R → ℕ → Bool
  unfolding is_none reading_row
  at_end (every reading) step = is_none (reading_row reading step)
  at_end (only positions) step = at_eof step (length positions)

  pub eof : Cursor R → Bool
  unfolding at_end
  eof c = at_end c.selection c.step

  paired : ℕ → Option R → Option (ℕ × R)
  paired position none = none
  paired position (some row) = some (position, row)

  get_settled : Option (Settled R) → ℕ → Option R
  get_settled none position = none
  get_settled (some settled) position = get settled position

  at_position : Option ℕ → Option (Settled R) → Option (ℕ × R)
  unfolding paired get_settled
  at_position none settled = none
  at_position (some position) settled = paired position (get_settled settled position)

  current_of : Selection R → Option (Settled R) → ℕ → Option (ℕ × R)
  unfolding paired reading_row at_position
  current_of (every reading) settled step = paired step (reading_row reading step)
  current_of (only positions) settled step = at_position (get_elem? positions step) settled

  -- `current`: the position and the row that `column` and `rowid` read.
  pub current : Cursor R → Option (ℕ × R)
  unfolding current_of
  current c = current_of c.selection c.settled c.step

  position_or : Option (ℕ × R) → ℕ → ℕ
  position_or none step = step
  position_or (some found) step = found.0

  -- `rowid`
  pub rowid : Cursor R → ℕ
  unfolding position_or current
  rowid c = rowid_of (position_or (current c) c.step)
