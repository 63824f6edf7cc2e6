-- ===== src/VtabScaffold/Cursor/Filter/Wanted.antt =====
-- packages/rust/src/vtab_scaffold.rs (`filter`): a filter and the rows that SQLite reads after it.
use mathlib.Core.List.{flatten, filter_map}
use dirsql.Prelude.{
  ℕ, suc, ◌<◌, ◌≡◌, refl, sym, ap, ◌∙◌, inl, inr, Bool, true, false, Option, none, some, List, [],
  ◌∷◌, map, Text, length, drop, all, get_elem?, if◌then◌else◌, arith,
}
use dirsql.RowStream.{new, get}
use dirsql.RowStream.Position.{is_full, get-new}
use dirsql.VtabScaffold.Plan.{lookup_column, prefetches}
use dirsql.VtabScaffold.Cursor.{
  Argument, first_key, reading_from, every, Cursor, opened, next, take_rows, rows_or, settle,
  select, selected_rows, prefetched, filter,
}
use dirsql.VtabScaffold.Cursor.Steps.{full-get, IsAt}
use dirsql.VtabScaffold.Cursor.Run.{collect, numbered, Follows, by_scan, by_lookup, collect-Follows}
use dirsql.VtabScaffold.Cursor.Filter.{
  wanted, IsGood, rows_or-held, settled_or-new, settle-Good, lookup-Follows,
}

module _ {R : Type 0} (held : List (List R)) (row_key : R → ℕ → Option Text) where
  IsAt-start : all is_full held ≡ true → IsAt held 0 (reading_from held 0 0)
  unfolding reading_from
  IsAt-start full = (0, refl, omega arith, full-get held 0 full 0)

  scan-Follows :
      (c : Cursor R)
      → all is_full held ≡ true
      → IsGood held row_key c
      → IsGood held row_key
          (record (take_rows held c) { selection = every (reading_from (rows_or held c.rows) 0 0) })
        × Follows held
            (record (take_rows held c) {
              selection = every (reading_from (rows_or held c.rows) 0 0);
              step = 0;
            })
            (numbered held 0 (flatten held))
  unfolding take_rows
  scan-Follows c full good =
      let same = rows_or-held held row_key c.rows good.of_stream in
      (
        record {
          of_stream = inr (ap some same);
          of_settled = good.of_settled;
          right_index = good.right_index;
        },
        by_scan (reading_from held 0 0) (ap some same)
            (ap (λ rows. every (reading_from rows 0 0)) same) (IsAt-start full) refl,
      )

  select-Follows :
      (column : Option ℕ) (key : Option Text) (c : Cursor R)
      → all is_full held ≡ true
      → IsGood held row_key c
      → IsGood held row_key (select held row_key column key c)
        × Follows held
            (record (select held row_key column key c) { step = 0 })
            (wanted held row_key column key)
  unfolding select
  select-Follows none none c full good = scan-Follows c full good
  select-Follows none (some key) c full good = scan-Follows c full good
  select-Follows (some column) none c full good = scan-Follows c full good
  select-Follows (some column) (some key) c full good =
      lookup-Follows held row_key c column key good

  map-numbered : (p : ℕ) (rows : List R) → map (λ q. q.1) (numbered held p rows) ≡ rows
  map-numbered p [] = refl
  map-numbered p (row ∷ rows) = ap (λ rest. row ∷ rest) (map-numbered (suc p) rows)

  -- Every position that a lookup found has its row.
  found-rows :
      (items : List (ℕ × R))
      → ((i : ℕ) (p : ℕ × R) → get_elem? items i ≡ some p → get_elem? (flatten held) p.0 ≡ some p.1)
      → filter_map (get (new held)) (map (λ q. q.0) items) ≡ map (λ q. q.1) items
  unfolding filter_map
  found-rows [] valid = refl
  found-rows ((p, row) ∷ items) valid =
      rw (get-new held p ∙ valid 0 (p, row) refl)
        (ap (λ rest. row ∷ rest) (found-rows items (λ i. valid (suc i))))

  selected-wanted :
      (c : Cursor R) (items : List (ℕ × R))
      → Follows held c items
      → selected_rows held row_key c.selection (new held) ≡ map (λ q. q.1) items
  unfolding selected_rows new
  selected-wanted c items (by_scan reading r e at i) =
      ap (λ s. selected_rows held row_key s (new held)) e
      ∙ sym (ap (map (λ q. q.1)) i ∙ map-numbered 0 (flatten held))
  selected-wanted c items (by_lookup settled e valid) =
      ap (λ s. selected_rows held row_key s (new held)) e ∙ found-rows items valid

  settle-Follows :
      (c : Cursor R) (items : List (ℕ × R))
      → IsGood held row_key c
      → Follows held c items
      → Follows held (settle held c) items
  unfolding settle take_rows
  settle-Follows c items good (by_scan reading r e at i) =
      by_scan reading (settle-Good held row_key c good).0 e at i
  settle-Follows c items good (by_lookup settled e valid) =
      by_lookup (settle-Good held row_key c good).1 e valid

  settle-IsGood : (c : Cursor R) → IsGood held row_key c → IsGood held row_key (settle held c)
  unfolding settle take_rows
  settle-IsGood c good =
      let (rows, settled, all) = settle-Good held row_key c good in
      record { of_stream = inr rows; of_settled = inr settled; right_index = good.right_index }

  prefetched-Follows :
      (b : Bool) (c : Cursor R) (items : List (ℕ × R))
      → IsGood held row_key c
      → Follows held c items
      → IsGood held row_key (prefetched held row_key b c).0
        × Follows held (prefetched held row_key b c).0 items
        × ((prefetched held row_key b c).0.step ≡ c.step)
        × ((prefetched held row_key b c).1 ≡ (if b then map (λ q. q.1) items else []))
  unfolding prefetched settle take_rows
  prefetched-Follows false c items good follows = (good, follows, refl, refl)
  prefetched-Follows true c items good follows = (
    settle-IsGood c good,
    settle-Follows c items good follows,
    refl,
    ap (selected_rows held row_key c.selection) (
          settled_or-new held row_key c.settled (rows_or held c.rows) good.of_settled
            (rows_or-held held row_key c.rows good.of_stream))
        ∙ selected-wanted c items follows,
  )

  IsGood-step : (c : Cursor R) → IsGood held row_key c → IsGood held row_key (record c { step = 0 })
  IsGood-step c good = record {
    of_stream = good.of_stream;
    of_settled = good.of_settled;
    right_index = good.right_index;
  }

  pub IsGood-opened : IsGood held row_key opened
  IsGood-opened = record {
    of_stream = inl refl;
    of_settled = inl refl;
    right_index = λ index key e. ground (arith, e);
  }

  pub IsGood-next : (c : Cursor R) → IsGood held row_key c → IsGood held row_key (next held c)
  unfolding next
  IsGood-next c good = record {
    of_stream = good.of_stream;
    of_settled = good.of_settled;
    right_index = good.right_index;
  }

  -- After a filter the cursor is good again, SQLite reads the rows wanted, each with its position, up
  -- to `eof`, and the rows read ahead are those rows where the plan asks for them, else none.
  pub collect-filter :
      (idx_num : ℕ) (args : List Argument) (c : Cursor R) (fuel : ℕ)
      → all is_full held ≡ true
      → IsGood held row_key c
      → length (wanted held row_key (lookup_column idx_num) (first_key args)) < fuel
      → IsGood held row_key (filter held row_key idx_num args c).0
        × (collect held fuel (filter held row_key idx_num args c).0
            ≡ some (wanted held row_key (lookup_column idx_num) (first_key args)))
        × ((filter held row_key idx_num args c).1 ≡ (
            if prefetches idx_num
            then map (λ q. q.1) (wanted held row_key (lookup_column idx_num) (first_key args))
            else []))
  unfolding filter
  collect-filter idx_num args c fuel full good enough =
      let key = first_key args in
      let items = wanted held row_key (lookup_column idx_num) key in
      let (kept, follows) = select-Follows (lookup_column idx_num) key c full good in
      let d = record (select held row_key (lookup_column idx_num) key c) { step = 0 } in
      let (good', follows', start, ahead) =
        prefetched-Follows (prefetches idx_num) d items (IsGood-step _ kept) follows in
      let e = (prefetched held row_key (prefetches idx_num) d).0 in
      (
        good',
        collect-Follows held fuel e items full follows' (omega (arith, start))
              (omega (arith, start, enough))
            ∙ ap (λ n. some (drop n items)) start,
        ahead,
      )
