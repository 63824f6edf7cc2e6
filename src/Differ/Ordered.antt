-- ===== src/Differ/Ordered.antt =====
-- packages/rust/src/differ.rs: the events of `diff`, `diff_rows` and `diff_keyed`, replayed.
use dirsql.Prelude.{
  ℕ, ◌+◌, ◌*◌, ◌≤◌, ◌≡◌, refl, ap, ◌∙◌, sym, Bool, true, ◌&&◌, Option, none, some, List, [], ◌∷◌,
  ◌++◌, map, Text, text_eq, length, drop, arith, ltb, Bool-cases, inl, inr, if◌then◌else◌,
  append-nil,
}
use dirsql.Value.{Row, row_eq}
use dirsql.Differ.{
  RowEvent, row_key, deletes, inserts, updates, full_replace, changed, changed_pairs, diff_rows,
  diff, diff_keyed,
}
use dirsql.Differ.Bag.{
  count, replay, SameRows, Fits, replay-batch, replay-deletes, replay-inserts, replay-nil,
  count-append,
}

abbrev rows_of : {F : Type 0} → Option (List (Row F)) → List (Row F)
rows_of none = []
rows_of (some rows) = rows

module _ {F : Type 0} (float_eq : F → F → Bool) (debug : Row F → Text) where
  -- Rows at the same place that compare equal have the same key.
  abbrev pub Agrees : List (Row F) → List (Row F) → Type 0
  Agrees (o ∷ old) (n ∷ new) =
      (row_eq float_eq o n ≡ true → row_key debug o ≡ row_key debug n) × Agrees old new
  Agrees _ _ = Unit

  -- The replay of `events` on `old` succeeds and leaves the rows of `new`.
  abbrev pub Becomes : List (Row F) → List (RowEvent F) → List (Row F) → Type 0
  Becomes old events new =
      (left : List (Row F)) × (replay debug old events ≡ some left) × SameRows debug left new

  -- What the changed pairs leave out is the same on both sides.
  changed_pairs-Counts :
      (old new : List (Row F))
      → length old ≤ length new
      → Agrees old new
      → (k : Text)
      → (count debug k old
            + count debug k (map (λ p. p.1) (changed_pairs float_eq old new))
            + count debug k (drop (length old) new)
          ≡ count debug k (map (λ p. p.0) (changed_pairs float_eq old new)) + count debug k new)
        × (count debug k (map (λ p. p.0) (changed_pairs float_eq old new)) ≤ count debug k old)
  unfolding changed_pairs
  changed_pairs-Counts [] new h a k = (omega arith, omega arith)
  changed_pairs-Counts (o ∷ old) [] h a k = absurd (omega arith)
  changed_pairs-Counts (o ∷ old) (n ∷ new) h a k = elim (Bool-cases (row_eq float_eq o n)) [
    | inl e ↦ rw e (
        let ih = changed_pairs-Counts old new (omega arith) a.1 k in
        let same = ap {B = ℕ} (λ j. if text_eq j k then 1 else 0) (a.0 e) in
        (omega (arith, ih.0, same), omega (arith, ih.1)))
    | inr e ↦ rw e (
        let ih = changed_pairs-Counts old new (omega arith) a.1 k in
        (omega (arith, ih.0), omega (arith, ih.1)))
  ]

  replay-full_replace :
      (table file_path : Text) (old new : List (Row F))
      → Becomes old (full_replace table old new file_path) new
  unfolding full_replace updates
  replay-full_replace table file_path old new =
      let (left, e, c) = replay-batch debug table file_path old [] new old (λ k. omega arith) in
      (left, e, λ k. omega (arith, c k))

  replay-in_place :
      (table file_path : Text) (old new : List (Row F))
      → length old ≤ length new
      → Agrees old new
      → Becomes old
          (updates table file_path (changed_pairs float_eq old new)
            ++ inserts table file_path (drop (length old) new))
          new
  unfolding deletes
  replay-in_place table file_path old new h a =
      let pairs = changed_pairs float_eq old new in
      let counts = changed_pairs-Counts old new h a in
      let (left, e, c) =
        replay-batch debug table file_path [] pairs (drop (length old) new) old
          (λ k. omega (arith, (counts k).1)) in
      (left, e, λ k. omega (arith, c k, (counts k).0))

  replay-diff_rows :
      (table : Text) (old new : List (Row F)) (file_path : Text)
      → Agrees old new
      → Becomes old (diff_rows float_eq table old new file_path) new
  unfolding diff_rows
  replay-diff_rows table old new file_path a = elim (Bool-cases (ltb (length new) (length old))) [
    | inl shrunk ↦ rw shrunk (replay-full_replace table file_path old new)
    | inr kept ↦
        rw kept
          (elim (Bool-cases
            (ltb 1 (length old) && ltb (length old) (changed float_eq old new * 2))) [
              | inl most ↦ rw most (replay-full_replace table file_path old new)
              | inr few ↦ rw few (replay-in_place table file_path old new (ground arith) a)
            ])
  ]

  -- Replaying the events of `diff` on a file's old rows succeeds and leaves its new rows, as many
  -- of each key, whether the file is new, gone, shrunk, mostly rewritten or changed in places. It
  -- needs rows at the same position that compare equal to have the same key.
  pub diff-Replays :
      (table : Text) (old new : Option (List (Row F))) (file_path : Text)
      → Agrees (rows_of old) (rows_of new)
      → Becomes (rows_of old) (diff float_eq table old new file_path) (rows_of new)
  unfolding diff
  diff-Replays table none none file_path a = ([], replay-nil debug [], λ k. refl)
  diff-Replays table none (some new) file_path a =
      let (left, e, c) = replay-inserts debug table file_path new [] in
      (left, e, λ k. omega (arith, c k))
  diff-Replays table (some old) none file_path a =
      let (left, e, c) = replay-deletes debug table file_path old old [] (λ k. omega arith) in
      (
        left,
        ap (replay debug old) (sym (append-nil (deletes table file_path old)))
            ∙ e
            ∙ replay-nil debug left,
        λ k. omega (arith, c k),
      )
  diff-Replays table (some old) (some new) file_path a = replay-diff_rows table old new file_path a

  -- Replaying the events of `diff_keyed` succeeds where the removed rows and the old sides of the
  -- updates are held, and takes these and adds the new sides of the updates and the added rows.
  pub diff_keyed-Replays :
      (table : Text) (removed : List (Row F)) (updated : List (Row F × Row F))
      (added : List (Row F)) (file_path : Text) (held : List (Row F))
      → Fits debug (removed ++ map (λ p. p.0) updated) held
      → (left : List (Row F)) × (replay debug held
            (diff_keyed table removed updated added file_path)
          ≡ some left)
        × ((k : Text)
            → count debug k left + count debug k (removed ++ map (λ p. p.0) updated)
              ≡ count debug k held + count debug k (map (λ p. p.1) updated ++ added))
  unfolding diff_keyed
  diff_keyed-Replays table removed updated added file_path held fits =
      let old_sides = map (λ p. p.0) updated in
      let (left, e, c) =
        replay-batch debug table file_path removed updated added held
          (λ k. omega (arith, fits k, count-append debug k removed old_sides)) in
      (
        left,
        e,
        λ k. omega (
          arith,
          c k,
          count-append debug k removed old_sides,
          count-append debug k (map (λ p. p.1) updated) added,
        ),
      )
