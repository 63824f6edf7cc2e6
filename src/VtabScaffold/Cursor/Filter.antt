-- ===== src/VtabScaffold/Cursor/Filter.antt =====
-- packages/rust/src/vtab_scaffold.rs (`filter`): whatever a cursor did before, a filter selects the
-- rows that the plan and the key ask for.
pub mod Wanted
pub mod Reached
use mathlib.Core.List.{flatten, filter_map}
use dirsql.Prelude.{
  ℕ, zero, suc, ◌+◌, ◌-◌, ◌≤◌, ◌<◌, ◌≡◌, refl, sym, ap, ◌∙◌, ◌⊎◌, inl, inr, Bool, true, false,
  Option, none, some, List, [], ◌∷◌, ◌++◌, map, Text, length, drop, all, get_elem?, if◌then◌else◌,
  ◌==◌, ==_iff, arith, Bool-cases, Option-cases,
}
use dirsql.RowStream.{Settled, new, get}
use dirsql.RowStream.Position.{is_full, get-new}
use dirsql.VtabScaffold.Plan.{lookup_column, prefetches}
use dirsql.VtabScaffold.Lookup.{LookupIndex, is_key, scan_from, scan_matching, build, matching}
use dirsql.VtabScaffold.Lookup.Index.{matching-build}
use dirsql.VtabScaffold.Cursor.{
  Argument, first_key, Reading, reading_from, Selection, every, only, Cursor, opened, next,
  take_rows, rows_or, settle, settled_or, settled_rows, is_on, is_scanned, index_matches,
  select_by_lookup, select, selected_rows, prefetched, filter,
}
use dirsql.VtabScaffold.Cursor.Run.{
  collect, numbered, keyed, Follows, by_scan, by_lookup, collect-Follows,
}

module _ {R : Type 0} (held : List (List R)) (row_key : R → ℕ → Option Text) where
  -- What the plan and the key ask for: the rows with the key, or all of them.
  abbrev pub wanted : Option ℕ → Option Text → List (ℕ × R)
  wanted (some column) (some key) = keyed held row_key 0 (flatten held) column key
  wanted _ _ = numbered held 0 (flatten held)

  -- What a cursor keeps between filters is of the statement's stream, and its index is right.
  pub record IsGood (c : Cursor R) : Type 0 where
    pub of_stream : (c.rows ≡ none) ⊎ (c.rows ≡ some held)
    pub of_settled : (c.settled ≡ none) ⊎ (c.settled ≡ some (new held))
    pub right_index :
        (index : LookupIndex) (key : Text)
        → c.index ≡ some index
        → matching index key ≡ scan_matching row_key (flatten held) index.column key

  pub rows_or-held :
      (o : Option (List (List R))) → (o ≡ none) ⊎ (o ≡ some held) → rows_or held o ≡ held
  unfolding rows_or
  rows_or-held o (inl e) = ap (rows_or held) e
  rows_or-held o (inr e) = ap (rows_or held) e

  pub settled_or-new :
      (o : Option (Settled R)) (rows : List (List R))
      → (o ≡ none) ⊎ (o ≡ some (new held))
      → rows ≡ held
      → settled_or held o rows ≡ new held
  unfolding settled_or
  settled_or-new o rows (inl e) h = ap (λ s. settled_or held s rows) e ∙ ap new h
  settled_or-new o rows (inr e) h = ap (λ s. settled_or held s rows) e

  scan_from-keyed :
      (p : ℕ) (rows : List R) (column : ℕ) (key : Text)
      → scan_from row_key p rows column key ≡ map (λ q. q.0) (keyed held row_key p rows column key)
  unfolding scan_from
  scan_from-keyed p [] column key = refl
  scan_from-keyed p (row ∷ rows) column key =
      ground (arith, scan_from-keyed (suc p) rows column key)

  deeper :
      (p : ℕ) (row : R) (rows : List R) (q : ℕ × R)
      → (suc p ≤ q.0) × (get_elem? rows (q.0 - suc p) ≡ some q.1)
      → (p ≤ q.0) × (get_elem? (row ∷ rows) (q.0 - p) ≡ some q.1)
  deeper p row rows q (h, e) = (omega arith, ap (get_elem? (row ∷ rows)) (one_less p q.0 h) ∙ e)
    where
      one_less : (p k : ℕ) → suc p ≤ k → k - p ≡ suc (k - suc p)
      one_less p k h = omega arith

  pub some_inj : {A : Type 0} (a b : A) → some a ≡ some b → a ≡ b
  some_inj a b e = ground (arith, e)

  first-valid :
      (p : ℕ) (row : R) (rows : List R) (rest : List (ℕ × R)) (i : ℕ) (q : ℕ × R)
      → ((k : ℕ)
          → get_elem? rest k ≡ some q
          → (suc p ≤ q.0) × (get_elem? rows (q.0 - suc p) ≡ some q.1))
      → get_elem? ((p, row) ∷ rest) i ≡ some q
      → (p ≤ q.0) × (get_elem? (row ∷ rows) (q.0 - p) ≡ some q.1)
  first-valid p row rows rest zero q h e =
      rw (sym (some_inj (p, row) q e)) (omega arith, ap (get_elem? (row ∷ rows)) (none_less p))
    where
      none_less : (p : ℕ) → p - p ≡ 0
      none_less p = omega arith
  first-valid p row rows rest (suc i) q h e = deeper p row rows q (h i e)

  -- A row with the key stands at its position.
  keyed-valid :
      (p : ℕ) (rows : List R) (column : ℕ) (key : Text) (i : ℕ) (q : ℕ × R)
      → get_elem? (keyed held row_key p rows column key) i ≡ some q
      → (p ≤ q.0) × (get_elem? rows (q.0 - p) ≡ some q.1)
  keyed-valid p [] column key i q e = ground (arith, e)
  keyed-valid p (row ∷ rows) column key i q e =
      elim (Bool-cases (is_key (row_key row column) key)) [
        | inl is ↦
            first-valid p row rows (keyed held row_key (suc p) rows column key) i q
              (λ k. keyed-valid (suc p) rows column key k q) (let e' = rw is at e in e')
        | inr not_key ↦
            deeper p row rows q
              (keyed-valid (suc p) rows column key i q (let e' = rw not_key at e in e'))
      ]

  keyed-found :
      (column : ℕ) (key : Text) (i : ℕ) (q : ℕ × R)
      → get_elem? (keyed held row_key 0 (flatten held) column key) i ≡ some q
      → get_elem? (flatten held) q.0 ≡ some q.1
  keyed-found column key i q e =
      ap (get_elem? (flatten held)) (omega arith)
      ∙ (keyed-valid 0 (flatten held) column key i q e).1

  pub settle-Good :
      (c : Cursor R)
      → IsGood c
      → ((settle held c).rows ≡ some held)
        × ((settle held c).settled ≡ some (new held))
        × (settled_rows held c ≡ flatten held)
  unfolding settle take_rows settled_rows new
  settle-Good c good =
      let rows = rows_or-held c.rows good.of_stream in
      let all = settled_or-new c.settled (rows_or held c.rows) good.of_settled rows in
      (ap some rows, ap some all, ap (λ s. flatten s.chunks) all)

  if-both :
      (P : Cursor R → Type 0) (b : Bool) (c d : Cursor R)
      → (b ≡ true → P c)
      → (b ≡ false → P d)
      → P (if b then c else d)
  if-both P true c d h g = h refl
  if-both P false c d h g = g refl

  lookup-by :
      (d : Cursor R) (column : ℕ) (key : Text)
      → d.settled ≡ some (new held)
      → d.selection ≡ only (scan_matching row_key (flatten held) column key)
      → Follows held (record d { step = 0 }) (wanted (some column) (some key))
  unfolding scan_matching
  lookup-by d column key settled e =
      by_lookup settled (e ∙ ap only (scan_from-keyed 0 (flatten held) column key))
        (keyed-found column key)

  index_matches-right :
      (c : Cursor R) (column : ℕ) (key : Text)
      → IsGood c
      → is_on c.index column ≡ true
      → index_matches c.index key ≡ scan_matching row_key (flatten held) column key
  unfolding is_on index_matches
  index_matches-right c column key good on = go c.index refl on
    where
      go :
          (o : Option LookupIndex)
          → c.index ≡ o
          → is_on o column ≡ true
          → index_matches o key ≡ scan_matching row_key (flatten held) column key
      go none e on = ground (arith, on)
      go (some index) e on =
          good.right_index index key e
          ∙ ap (λ k. scan_matching row_key (flatten held) k key) ((==_iff index.column column).0 on)

  built-right :
      (c : Cursor R) (column : ℕ) (index : LookupIndex) (key : Text)
      → IsGood c
      → build row_key (settled_rows held c) column ≡ index
      → matching index key ≡ scan_matching row_key (flatten held) index.column key
  unfolding build
  built-right c column index key good e = rw (sym e) (
      matching-build row_key (settled_rows held c) column key
      ∙ ap (λ r. scan_matching row_key r column key) (settle-Good c good).2)

  pub lookup-Follows :
      (c : Cursor R) (column : ℕ) (key : Text)
      → IsGood c
      → IsGood (select_by_lookup held row_key column key c)
        × Follows held
            (record (select_by_lookup held row_key column key c) { step = 0 })
            (wanted (some column) (some key))
  unfolding select_by_lookup
  lookup-Follows c column key good =
      let (rows, settled, all) = settle-Good c good in
      let d = settle held c in
      let found = scan_matching row_key (flatten held) column key in
      let same = ap (λ r. scan_matching row_key r column key) all in
      if-both
        (λ d. IsGood d × Follows held (record d { step = 0 }) (wanted (some column) (some key)))
        (is_on c.index column) _ _
        (λ on.
          let right = index_matches-right c column key good on in
          (
            record {
              of_stream = inr rows;
              of_settled = inr settled;
              right_index = good.right_index;
            },
            lookup-by (record d { selection = only (index_matches c.index key) }) column key settled
                (ap only right),
          ))
        (λ off.
          if-both
            (λ d. IsGood d × Follows held (record d { step = 0 }) (wanted (some column) (some key)))
            (is_scanned c.scanned column) _ _
            (λ again.
              let index = build row_key (settled_rows held c) column in
              (
                record {
                  of_stream = inr rows;
                  of_settled = inr settled;
                  right_index = λ i key e. built-right c column i key good (some_inj index i e);
                },
                lookup-by (record d { index = some index; selection = only (matching index key) })
                    column key settled
                    (ap only (matching-build row_key (settled_rows held c) column key ∙ same)),
              ))
            (λ fresh. (
              record {
                of_stream = inr rows;
                of_settled = inr settled;
                right_index = good.right_index;
              },
              lookup-by
                  (record d {
                    scanned = some column;
                    selection = only (scan_matching row_key (settled_rows held c) column key);
                  })
                  column key settled (ap only same),
            )))
