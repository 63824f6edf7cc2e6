-- ===== src/VtabScaffold/Cursor/Filter/Reached.antt =====
-- packages/rust/src/vtab_scaffold.rs (`ScaffoldCursor`): a cursor that SQLite has filtered and moved in
-- any order.
use dirsql.Prelude.{
  ℕ, ◌+◌, ◌<◌, ◌≡◌, true, Option, some, List, [], map, Text, length, all, if◌then◌else◌, arith,
}
use dirsql.RowStream.Position.{is_full}
use dirsql.VtabScaffold.Plan.{lookup_column, prefetches}
use dirsql.VtabScaffold.Cursor.{Argument, first_key, Cursor, opened, next, filter}
use dirsql.VtabScaffold.Cursor.Run.{collect}
use dirsql.VtabScaffold.Cursor.Filter.{wanted, IsGood}
use dirsql.VtabScaffold.Cursor.Filter.Wanted.{IsGood-opened, IsGood-next, collect-filter}

module _ {R : Type 0} (held : List (List R)) (row_key : R → ℕ → Option Text) where
  -- The cursors that calls of `filter` and `next` make of an opened one.
  pub data Reached : Cursor R → Type 0 where
    on_open : Reached opened
    on_filter :
        (idx_num : ℕ) (args : List Argument) (c : Cursor R)
        → Reached c
        → Reached (filter held row_key idx_num args c).0
    on_next : (c : Cursor R) → Reached c → Reached (next held c)

  Reached-IsGood : (c : Cursor R) → all is_full held ≡ true → Reached c → IsGood held row_key c
  Reached-IsGood c full on_open = IsGood-opened held row_key
  Reached-IsGood c full (on_filter idx_num args d reached) =
      (collect-filter held row_key idx_num args d
        (length (wanted held row_key (lookup_column idx_num) (first_key args)) + 1) full
        (Reached-IsGood d full reached) (omega arith)).0
  Reached-IsGood c full (on_next d reached) =
      IsGood-next held row_key d (Reached-IsGood d full reached)

  -- Where no chunk of the stream is empty: whatever filters and steps a cursor has been through, the
  -- next filter makes SQLite read exactly the rows that the plan's number and the key ask for (those
  -- with the key in the column, or all), each with its position and in order, and then `eof`, in more
  -- steps than there are such rows. The rows read ahead are the same rows where the number asks for
  -- them, else none.
  pub filter-Reached :
      (idx_num : ℕ) (args : List Argument) (c : Cursor R) (fuel : ℕ)
      → all is_full held ≡ true
      → Reached c
      → length (wanted held row_key (lookup_column idx_num) (first_key args)) < fuel
      → (collect held fuel (filter held row_key idx_num args c).0
          ≡ some (wanted held row_key (lookup_column idx_num) (first_key args)))
        × ((filter held row_key idx_num args c).1 ≡ (
            if prefetches idx_num
            then map (λ q. q.1) (wanted held row_key (lookup_column idx_num) (first_key args))
            else []))
  filter-Reached idx_num args c fuel full reached enough =
      let (good, read, ahead) =
        collect-filter held row_key idx_num args c fuel full (Reached-IsGood c full reached)
          enough in
      (read, ahead)
