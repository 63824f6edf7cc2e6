-- ===== src/Differ/Bag.antt =====
-- What a consumer of row events holds: a table's rows as a bag. Replaying a delete or an update
-- looks for a row with the key of the row that goes, and fails where there is none.
use mathlib.Core.Option
use dirsql.Prelude.{
  ℕ, ◌+◌, ◌≤◌, ◌<◌, ◌≡◌, refl, ◌∙◌, false, Option, none, some, List, [], ◌∷◌, ◌++◌, map, Text,
  text_eq, text_eq_iff, text_eq_refl, Bool-cases, inl, inr, if◌then◌else◌, arith,
}
use dirsql.Value.{Row}
use dirsql.Differ.{RowEvent, insert, update, delete, error, row_key, inserts, deletes, updates}

module _ {F : Type 0} (debug : Row F → Text) where
  abbrev pub one : Text → Row F → ℕ
  one k row = if text_eq (row_key debug row) k then 1 else 0

  -- How many rows have the key `k`.
  abbrev pub count : Text → List (Row F) → ℕ
  count k [] = 0
  count k (row ∷ rows) = one k row + count k rows

  -- The rows without the first one that has the key.
  pub remove : Text → List (Row F) → Option (List (Row F))
  remove k [] = none
  remove k (row ∷ rows) =
      let rest = Option.map (λ r. row ∷ r) (remove k rows) in
      if text_eq (row_key debug row) k then some rows else rest

  pub apply : List (Row F) → RowEvent F → Option (List (Row F))
  unfolding remove
  apply held (insert table row file_path) = some (row ∷ held)
  apply held (update table old_row new_row file_path) =
      Option.map (λ r. new_row ∷ r) (remove (row_key debug old_row) held)
  apply held (delete table row file_path) = remove (row_key debug row) held
  apply held (error table file_path message) = some held

  pub replay : List (Row F) → List (RowEvent F) → Option (List (Row F))
  replay held [] = some held
  replay held (event ∷ events) = elim (apply held event) [
    | none ↦ none
    | some next ↦ replay next events
  ]

  -- `held` has as many rows of each key as `rows`.
  abbrev pub SameRows : List (Row F) → List (Row F) → Type 0
  SameRows held rows = (k : Text) → count k held ≡ count k rows

  -- Each row of `rows` is in `held`, as often.
  abbrev pub Fits : List (Row F) → List (Row F) → Type 0
  Fits rows held = (k : Text) → count k rows ≤ count k held

  pub count-append :
      (k : Text) (xs ys : List (Row F)) → count k (xs ++ ys) ≡ count k xs + count k ys
  count-append k [] ys = omega arith
  count-append k (x ∷ xs) ys = omega (arith, count-append k xs ys)

  remove-skip :
      (k : Text) (row : Row F) (rows : List (Row F)) {left : List (Row F)}
      → text_eq (row_key debug row) k ≡ false
      → remove k rows ≡ some left
      → remove k (row ∷ rows) ≡ some (row ∷ left)
  unfolding remove
  remove-skip k row rows other e = rw (other, e)

  pub replay-nil : (held : List (Row F)) → replay held [] ≡ some held
  unfolding replay
  replay-nil held = refl

  replay-step :
      (held : List (Row F)) {next : List (Row F)} (event : RowEvent F) (events : List (RowEvent F))
      → apply held event ≡ some next
      → replay held (event ∷ events) ≡ replay next events
  unfolding replay
  replay-step held event events e = rw (e, replay)

  apply-update :
      (held : List (Row F)) {left : List (Row F)} (o : Row F) (table : Text) (n : Row F)
      (file_path : Text)
      → remove (row_key debug o) held ≡ some left
      → apply held (update table o n file_path) ≡ some (n ∷ left)
  unfolding apply
  apply-update held o table n file_path e = rw e

  -- A row whose key is held is found, and one row of that key goes.
  remove_lem :
      (k : Text) (held : List (Row F))
      → 0 < count k held
      → (left : List (Row F)) × (remove k held ≡ some left)
        × ((j : Text) → count j left + (if text_eq k j then 1 else 0) ≡ count j held)
  unfolding remove
  remove_lem k [] h = elim h [ ]
  remove_lem k (row ∷ rows) h = elim (Bool-cases (text_eq (row_key debug row) k)) [
    | inl same ↦ (rows, rw same, λ j. rw ((text_eq_iff _ k).0 same) (omega arith))
    | inr other ↦
        let (left, e, c) = remove_lem k rows (let h' = rw other at h in omega arith) in
        (row ∷ left, remove-skip k row rows other e, λ j. omega (arith, c j))
  ]

  one_self : (row : Row F) → one (row_key debug row) row ≡ 1
  one_self row = rw (text_eq_refl (row_key debug row))

  module _ (table file_path : Text) where
    -- Deletes of rows that are held succeed, and take those rows.
    pub replay-deletes :
        (rows held : List (Row F)) (rest : List (RowEvent F))
        → Fits rows held
        → (left : List (Row F)) × (replay held (deletes table file_path rows ++ rest)
            ≡ replay left rest)
          × ((k : Text) → count k left + count k rows ≡ count k held)
    unfolding replay apply deletes
    replay-deletes [] held rest fits = (held, refl, λ k. omega arith)
    replay-deletes (row ∷ rows) held rest fits =
        let k = row_key debug row in
        let (left, e, c) = remove_lem k held (omega (arith, fits k, one_self row)) in
        let (last, e', c') = replay-deletes rows left rest (λ j. omega (arith, fits j, c j)) in
        (
          last,
          replay-step held (delete table row file_path) (deletes table file_path rows ++ rest) e
              ∙ e',
          λ j. omega (arith, c j, c' j),
        )

    -- Updates whose old rows are held succeed, and put each new row for its old row.
    pub replay-updates :
        (pairs : List (Row F × Row F)) (held : List (Row F)) (rest : List (RowEvent F))
        → Fits (map (λ p. p.0) pairs) held
        → (left : List (Row F)) × (replay held (updates table file_path pairs ++ rest)
            ≡ replay left rest)
          × ((k : Text)
              → count k left + count k (map (λ p. p.0) pairs)
                ≡ count k held + count k (map (λ p. p.1) pairs))
    unfolding replay apply updates
    replay-updates [] held rest fits = (held, refl, λ k. omega arith)
    replay-updates ((o, n) ∷ pairs) held rest fits =
        let k = row_key debug o in
        let (left, e, c) = remove_lem k held (omega (arith, fits k, one_self o)) in
        let (last, e', c') =
          replay-updates pairs (n ∷ left) rest (λ j. omega (arith, fits j, c j)) in
        (
          last,
          replay-step held (update table o n file_path) (updates table file_path pairs ++ rest)
                (apply-update held o table n file_path e)
              ∙ e',
          λ j. omega (arith, c j, c' j),
        )

    -- Inserts always succeed.
    pub replay-inserts :
        (rows held : List (Row F))
        → (left : List (Row F)) × (replay held (inserts table file_path rows) ≡ some left)
          × ((k : Text) → count k left ≡ count k held + count k rows)
    unfolding replay apply inserts
    replay-inserts [] held = (held, refl, λ k. omega arith)
    replay-inserts (row ∷ rows) held =
        let (last, e, c) = replay-inserts rows (row ∷ held) in (last, e, λ j. omega (arith, c j))

    -- Deletes, then updates, then inserts: the shape of every list of events that the differ makes.
    pub replay-batch :
        (gone : List (Row F)) (pairs : List (Row F × Row F)) (fresh held : List (Row F))
        → ((k : Text) → count k gone + count k (map (λ p. p.0) pairs) ≤ count k held)
        → (left : List (Row F)) × (replay held (
              deletes table file_path gone
              ++ (updates table file_path pairs ++ inserts table file_path fresh))
            ≡ some left)
          × ((k : Text)
              → count k left + count k gone + count k (map (λ p. p.0) pairs)
                ≡ count k held + count k (map (λ p. p.1) pairs) + count k fresh)
    replay-batch gone pairs fresh held fits =
        let (l₁, e₁, c₁) =
          replay-deletes gone held (updates table file_path pairs ++ inserts table file_path fresh)
            (λ k. omega (arith, fits k)) in
        let (l₂, e₂, c₂) =
          replay-updates pairs l₁ (inserts table file_path fresh)
            (λ k. omega (arith, fits k, c₁ k)) in
        let (l₃, e₃, c₃) = replay-inserts fresh l₂ in
        (l₃, e₁ ∙ e₂ ∙ e₃, λ k. omega (arith, c₁ k, c₂ k, c₃ k))
