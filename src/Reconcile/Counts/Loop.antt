-- ===== src/Reconcile/Counts/Loop.antt =====
-- packages/rust/src/db.rs (`reconcile_rows`): the rows that are deleted and inserted are the stored and
-- the new rows less those that they have in common.
use dirsql.Prelude.{
  ℕ, zero, suc, ◌+◌, ◌-◌, ◌≤◌, ◌≡◌, refl, sym, ap, ◌∙◌, Bool, true, false, not, Option, List, [],
  ◌∷◌, map, Text, text_eq, length, drop, arith,
}
use dirsql.Value.{Value}
use dirsql.Reconcile.Unclaimed.{pop_index}
use dirsql.Reconcile.Unclaimed.Pop.{pop_index-Pops}
use dirsql.Reconcile.Free.{when, free}
use dirsql.Reconcile.{
  StoredRow, ShapedRows, Placement, marked_from, repeated, stored_at, cells_at, compared, match_on,
  ident, place, place_from, start, plan_of, plan_rows,
}
use dirsql.Reconcile.Counts.{
  add_if, count, Agrees, Agrees-start, Agrees-claim, left, added_count, claim-counts,
}

module _ {F : Type 0} (debug : List (Value F) → Text) (stored : List (StoredRow F))
    (at among : List ℕ) where
  drop-cells :
      (rows : List (List (Value F))) (index : ℕ) (cells : List (Value F))
      (rest : List (List (Value F)))
      → drop index rows ≡ cells ∷ rest
      → (cells_at rows index ≡ cells) × (drop (suc index) rows ≡ rest)
  unfolding cells_at
  drop-cells [] zero cells rest e = ground (arith, e)
  drop-cells [] (suc index) cells rest e = ground (arith, e)
  drop-cells (c ∷ rows) zero cells rest e = (ground (arith, e), ground (arith, e))
  drop-cells (c ∷ rows) (suc index) cells rest e = drop-cells rows index cells rest e

  pub Agrees-place :
      (index : ℕ) (cells : List (Value F)) (p : Placement)
      → Agrees debug stored at among p
      → Agrees debug stored at among (place debug stored at among index cells p)
  unfolding place
  Agrees-place index cells p agrees =
      Agrees-claim debug stored at among index cells p
        (pop_index (ident debug cells at) p.unclaimed) agrees
        (pop_index-Pops (ident debug cells at) p.unclaimed)

  place-counts :
      (rows : List (List (Value F))) (index : ℕ) (cells : List (Value F)) (p : Placement) (k : Text)
      → Agrees debug stored at among p
      → cells_at rows index ≡ cells
      → (left debug stored at among (place debug stored at among index cells p) k
          ≡ left debug stored at among p k - add_if (text_eq (ident debug cells at) k) 0)
        × (added_count debug stored at among rows (place debug stored at among index cells p) k
            ≡ added_count debug stored at among rows p k
              + (add_if (text_eq (ident debug cells at) k) 0 - left debug stored at among p k))
  unfolding place
  place-counts rows index cells p k agrees here =
      claim-counts debug stored at among rows index cells p
        (pop_index (ident debug cells at) p.unclaimed) k agrees
        (pop_index-Pops (ident debug cells at) p.unclaimed) here

  add_if-split : (b : Bool) (n : ℕ) → add_if b n ≡ add_if b 0 + n
  add_if-split true n = omega arith
  add_if-split false n = omega arith

  less_less : (l b n m l' : ℕ) → m ≡ b + n → l' ≡ l - b → l' - n ≡ l - m
  less_less l b n m l' e h = omega arith

  more_more :
      (a b n m l l' a' : ℕ)
      → m ≡ b + n
      → b ≤ 1
      → l' ≡ l - b
      → a' ≡ a + (b - l)
      → a' + (n - l') ≡ a + (m - l)
  more_more a b n m l l' a' e s h g = omega arith

  at_most_one : (b : Bool) → add_if b 0 ≤ 1
  at_most_one true = omega arith
  at_most_one false = omega arith

  loop-counts :
      (all : List (List (Value F))) (index : ℕ) (rows : List (List (Value F))) (p : Placement)
      (k : Text)
      → Agrees debug stored at among p
      → drop index all ≡ rows
      → Agrees debug stored at among (place_from debug stored at among index rows p)
        × (left debug stored at among (place_from debug stored at among index rows p) k
            ≡ left debug stored at among p k - count debug stored at among k rows)
        × (added_count debug stored at among all (place_from debug stored at among index rows p) k
            ≡ added_count debug stored at among all p k
              + (count debug stored at among k rows - left debug stored at among p k))
  unfolding place_from
  loop-counts all index [] p k agrees e = (agrees, omega arith, omega arith)
  loop-counts all index (cells ∷ rows) p k agrees e =
      let (here, later) = drop-cells all index cells rows e in
      let q = place debug stored at among index cells p in
      let (fewer, more) = place-counts all index cells p k agrees here in
      let b = text_eq (ident debug cells at) k in
      let n = count debug stored at among k rows in
      let (agrees', fewer', more') =
        loop-counts all (suc index) rows q k (Agrees-place index cells p agrees) later in
      (
        agrees',
        fewer'
            ∙ less_less (left debug stored at among p k) (add_if b 0) n (add_if b n)
                (left debug stored at among q k) (add_if-split b n) fewer,
        more'
            ∙ more_more (added_count debug stored at among all p k) (add_if b 0) n (add_if b n)
                (left debug stored at among p k) (left debug stored at among q k)
                (added_count debug stored at among all q k) (add_if-split b n) (at_most_one b) fewer
                more,
      )

  drop-stored :
      (rows : List (StoredRow F)) (index : ℕ) (row : StoredRow F) (rest : List (StoredRow F))
      → drop index rows ≡ row ∷ rest
      → (stored_at rows index ≡ row) × (drop (suc index) rows ≡ rest)
  unfolding stored_at
  drop-stored [] zero row rest e = ground (arith, e)
  drop-stored [] (suc index) row rest e = ground (arith, e)
  drop-stored (c ∷ rows) zero row rest e = (ground (arith, e), ground (arith, e))
  drop-stored (c ∷ rows) (suc index) row rest e = drop-stored rows index row rest e

  length-when : (b : Bool) (i : ℕ) (rest : List ℕ) → length (when b i rest) ≡ add_if b (length rest)
  length-when true i rest = refl
  length-when false i rest = refl

  -- The free rows of an identity are the unclaimed ones with it.
  count-unclaimed :
      (i : ℕ) (rows : List (StoredRow F)) (claimed : List Bool) (k : Text)
      → drop i stored ≡ rows
      → length claimed ≡ length rows
      → count debug stored at among k
          (map (λ j. (stored_at stored j).1) (marked_from i (map not claimed)))
        ≡ length (free i (map (λ row. ident debug row.1 at) rows) claimed k)
  unfolding marked_from
  count-unclaimed i [] [] k e h = refl
  count-unclaimed i [] (claim ∷ claimed) k e h = absurd (omega arith)
  count-unclaimed i (row ∷ rows) [] k e h = absurd (omega arith)
  count-unclaimed i (row ∷ rows) (true ∷ claimed) k e h =
      count-unclaimed (suc i) rows claimed k ((drop-stored stored i row rows e).1)
        (omega (arith, h))
  count-unclaimed i (row ∷ rows) (false ∷ claimed) k e h =
      let (here, later) = drop-stored stored i row rows e in
      ap
        (λ r. add_if (text_eq (ident debug r.1 at) k) (
          count debug stored at among k
            (map (λ j. (stored_at stored j).1) (marked_from (suc i) (map not claimed)))))
        here
      ∙ ap (add_if (text_eq (ident debug row.1 at) k))
          (count-unclaimed (suc i) rows claimed k later (omega (arith, h)))
      ∙ sym (length-when (text_eq (ident debug row.1 at) k) i _)

  count-start :
      (i : ℕ) (rows : List (StoredRow F)) (k : Text)
      → length (free i (map (λ row. ident debug row.1 at) rows) (repeated false rows) k)
        ≡ count debug stored at among k (map (λ row. row.1) rows)
  count-start i [] k = refl
  count-start i (row ∷ rows) k = ground (arith, count-start (suc i) rows k)

  reconcile-counts :
      (rows : List (List (Value F))) (k : Text)
      → (count debug stored at among k (
            map
              (λ i. (stored_at stored i).1)
              (plan_of debug
                (place_from debug stored at among 0 rows (start debug stored rows at))).removed)
          ≡ count debug stored at among k (map (λ row. row.1) stored)
            - count debug stored at among k rows)
        × (count debug stored at among k (
              map
                (cells_at rows)
                (plan_of debug
                  (place_from debug stored at among 0 rows (start debug stored rows at))).added)
            ≡ count debug stored at among k rows
              - count debug stored at among k (map (λ row. row.1) stored))
  unfolding plan_of start
  reconcile-counts rows k =
      let p = start debug stored rows at in
      let (agrees, fewer, more) =
        loop-counts rows 0 rows p k (Agrees-start debug stored at among rows) refl in
      let first = count-start 0 stored k in
      (
        count-unclaimed 0 stored (place_from debug stored at among 0 rows p).claimed k refl
              agrees.flags
            ∙ fewer
            ∙ ap (λ n. n - count debug stored at among k rows) first,
        more ∙ ap (λ n. 0 + (count debug stored at among k rows - n)) first ∙ omega arith,
      )

-- For every identity: as many stored rows with it are deleted as there are stored rows with it over
-- and above the new ones, and as many new rows with it are inserted as there are new ones over and
-- above the stored ones. The identity is the text of the key's cells, or of all cells that the rows
-- emit where there is no key.
pub plan_rows-counts :
    {F : Type 0} (debug : List (Value F) → Text) (stored : List (StoredRow F)) (rows : ShapedRows F)
    (key : Option (List ℕ)) (k : Text)
    → (count debug stored
          (match_on key (compared rows))
          (compared rows)
          k
          (map (λ i. (stored_at stored i).1) (plan_rows debug stored rows key).removed)
        ≡ count debug stored
            (match_on key (compared rows))
            (compared rows)
            k
            (map (λ row. row.1) stored)
          - count debug stored (match_on key (compared rows)) (compared rows) k rows.cells)
      × (count debug stored
            (match_on key (compared rows))
            (compared rows)
            k
            (map (cells_at rows.cells) (plan_rows debug stored rows key).added)
          ≡ count debug stored (match_on key (compared rows)) (compared rows) k rows.cells
            - count debug stored
                (match_on key (compared rows))
                (compared rows)
                k
                (map (λ row. row.1) stored))
unfolding plan_rows
plan_rows-counts debug stored rows key k =
    reconcile-counts debug stored (match_on key (compared rows)) (compared rows) rows.cells k
