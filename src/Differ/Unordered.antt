-- ===== src/Differ/Unordered.antt =====
-- packages/rust/src/differ.rs: the events of `diff_unordered`, replayed.
use mathlib.Core.List.{zip}
use dirsql.Prelude.{
  ℕ, suc, ◌+◌, ◌≤◌, min, ◌≡◌, refl, ap, some, List, [], ◌∷◌, map, Text, text_eq_refl, length, drop,
  arith,
}
use dirsql.Value.{Row}
use dirsql.Differ.{
  RowEvent, row_key, tally, match_new, count_of, pair_up, diff_unordered, deletes, inserts, updates,
}
use dirsql.Differ.Bag.{count, replay, SameRows, replay-batch}
use dirsql.Differ.Pool.{tally-Counts, match_new-Counts, match_old-Counts, tally-Keyed}

min_zero : (a : ℕ) → min a 0 ≡ 0
min_zero a = omega arith

zero_min : (a : ℕ) → min 0 (suc a) ≡ 0
zero_min a = omega arith

min-suc : (a b : ℕ) → min (suc a) (suc b) ≡ suc (min a b)
min-suc a b = omega arith

module _ {F : Type 0} (debug : Row F → Text) where
  -- A list is what it pairs with, and what is left over.
  zip-drop-fst :
      (k : Text) (xs ys : List (Row F))
      → count debug k (map (λ p. p.0) (zip xs ys))
          + count debug k (drop (min (length xs) (length ys)) xs)
        ≡ count debug k xs
  unfolding zip
  zip-drop-fst k [] [] = rw (min_zero 0)
  zip-drop-fst k [] (y ∷ ys) = rw (zero_min (length ys))
  zip-drop-fst k (x ∷ xs) [] = rw (min_zero (suc (length xs))) (omega arith)
  zip-drop-fst k (x ∷ xs) (y ∷ ys) =
      rw (min-suc (length xs) (length ys)) (omega (arith, zip-drop-fst k xs ys))

  zip-drop-snd :
      (k : Text) (xs ys : List (Row F))
      → count debug k (map (λ p. p.1) (zip xs ys))
          + count debug k (drop (min (length xs) (length ys)) ys)
        ≡ count debug k ys
  unfolding zip
  zip-drop-snd k [] [] = rw (min_zero 0)
  zip-drop-snd k [] (y ∷ ys) = rw (zero_min (length ys)) (omega arith)
  zip-drop-snd k (x ∷ xs) [] = rw (min_zero (suc (length xs)))
  zip-drop-snd k (x ∷ xs) (y ∷ ys) =
      rw (min-suc (length xs) (length ys)) (omega (arith, zip-drop-snd k xs ys))

  -- Replaying the events for two lists of rows takes the one list and adds the other.
  replay-pair_up :
      (table file_path : Text) (gone fresh held : List (Row F))
      → ((k : Text) → count debug k gone ≤ count debug k held)
      → (left : List (Row F)) × (replay debug held (pair_up table gone fresh file_path) ≡ some left)
        × ((k : Text)
            → count debug k left + count debug k gone ≡ count debug k held + count debug k fresh)
  unfolding pair_up
  replay-pair_up table file_path gone fresh held fits =
      let paired = min (length gone) (length fresh) in
      let (left, e, c) =
        replay-batch debug table file_path (drop paired gone) (zip gone fresh) (drop paired fresh)
          held (λ k. omega (arith, fits k, zip-drop-fst k gone fresh)) in
      (left, e, λ k. omega (arith, c k, zip-drop-fst k gone fresh, zip-drop-snd k gone fresh))

  -- `diff_unordered` never panics, and replaying its events on the old rows succeeds and leaves
  -- the new rows: as many of each key as `new` has.
  pub diff_unordered-Replays :
      (table : Text) (old new : List (Row F)) (file_path : Text)
      → (events : List (RowEvent F)) × (left : List (Row F)) × (diff_unordered debug table old new
            file_path
          ≡ some events)
        × (replay debug old events ≡ some left)
        × SameRows debug left new
  unfolding diff_unordered count_of
  diff_unordered-Replays table old new file_path =
      let r = match_new debug (tally debug [] old) new in
      let (gone, e, c) = match_old-Counts debug r.0 old (tally-Keyed debug old new) in
      let (left, e', c') = replay-pair_up table file_path gone r.1 old (λ k. omega (arith, c k)) in
      (
        pair_up table gone r.1 file_path,
        left,
        rw e,
        e',
        λ k. omega (
          arith,
          c k,
          c' k,
          tally-Counts debug [] old k,
          match_new-Counts debug (tally debug [] old) new k,
        ),
      )

  count-zero : (rows : List (Row F)) → ((k : Text) → count debug k rows ≡ 0) → rows ≡ []
  count-zero [] h = refl
  count-zero (row ∷ rows) h =
      absurd (ground (arith, h (row_key debug row), text_eq_refl (row_key debug row)))

  pair_up-nil :
      (table file_path : Text) (gone fresh : List (Row F))
      → gone ≡ []
      → fresh ≡ []
      → pair_up table gone fresh file_path ≡ []
  unfolding pair_up deletes inserts updates zip
  pair_up-nil table file_path gone fresh p q = rw (p, q)

  -- Where old and new hold the same rows, as often, in whatever order, there is no event at all.
  pub diff_unordered-reorder :
      (table : Text) (old new : List (Row F)) (file_path : Text)
      → SameRows debug old new
      → diff_unordered debug table old new file_path ≡ some []
  unfolding diff_unordered count_of
  diff_unordered-reorder table old new file_path same =
      let r = match_new debug (tally debug [] old) new in
      let (gone, e, c) = match_old-Counts debug r.0 old (tally-Keyed debug old new) in
      let none_gone = count-zero gone λ k. omega (
        arith,
        c k,
        same k,
        tally-Counts debug [] old k,
        match_new-Counts debug (tally debug [] old) new k,
      ) in
      let none_fresh = count-zero r.1 λ k. omega (
        arith,
        same k,
        tally-Counts debug [] old k,
        match_new-Counts debug (tally debug [] old) new k,
      ) in
      rw e (ap some (pair_up-nil table file_path gone r.1 none_gone none_fresh))
