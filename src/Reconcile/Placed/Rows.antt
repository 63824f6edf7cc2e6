-- ===== src/Reconcile/Placed/Rows.antt =====
-- packages/rust/src/db.rs (`reconcile_rows`): every new row is placed.
use dirsql.Prelude.{
  ℕ, zero, suc, ◌+◌, ◌≤◌, ◌<◌, ◌≡◌, refl, ap, ◌∙◌, ◌⊎◌, inl, inr, Bool, true, false, not, Option,
  none, some, List, [], ◌∷◌, map, Text, get_elem?, length, length-map, all, ltb, if◌then◌else◌,
  ◌==◌, arith,
}
use dirsql.Prelude.Int.{pos}
use dirsql.Value.{Value}
use dirsql.Reconcile.Unclaimed.{pop_index}
use dirsql.Reconcile.Unclaimed.Pop.{pop_index-Pops}
use dirsql.Reconcile.{
  StoredRow, ShapedRows, Placement, Plan, marked_from, stored_at, compared, match_on, ident,
  is_changed, claim_or_add, place, place_from, start, plan_of, plan_rows,
}
use dirsql.Reconcile.Counts.{Agrees, Agrees-start}
use dirsql.Reconcile.Counts.Loop.{Agrees-place}
use dirsql.Reconcile.Indexes.{has_index, updates_of, length-set}
use dirsql.Reconcile.Placed.{Kept, Fresh, claim-here, claim-other, claim-Fresh}

module _ {F : Type 0} (debug : List (Value F) → Text) (stored : List (StoredRow F))
    (at among : List ℕ) where
  place-here :
      (i : ℕ) (cells : List (Value F)) (p : Placement)
      → Agrees debug stored at among p
      → Fresh debug stored at among i p
      → i < length p.placed
      → Kept debug stored at among i cells (place debug stored at among i cells p)
  unfolding place
  place-here i cells p agrees fresh h =
      claim-here debug stored at among i cells p (pop_index (ident debug cells at) p.unclaimed)
        agrees fresh (pop_index-Pops (ident debug cells at) p.unclaimed) h

  place-Fresh :
      (i : ℕ) (cells : List (Value F)) (p : Placement)
      → Agrees debug stored at among p
      → Fresh debug stored at among i p
      → Fresh debug stored at among (suc i) (place debug stored at among i cells p)
  unfolding place
  place-Fresh i cells p agrees fresh =
      claim-Fresh debug stored at among i cells p (pop_index (ident debug cells at) p.unclaimed)
        agrees (pop_index-Pops (ident debug cells at) p.unclaimed) fresh

  place-other :
      (i j : ℕ) (cells others : List (Value F)) (p : Placement)
      → Agrees debug stored at among p
      → (j == i) ≡ false
      → Kept debug stored at among i cells p
      → Kept debug stored at among i cells (place debug stored at among j others p)
  unfolding place
  place-other i j cells others p agrees apart kept =
      claim-other debug stored at among i j cells others p
        (pop_index (ident debug others at) p.unclaimed) agrees
        (pop_index-Pops (ident debug others at) p.unclaimed) apart kept

  claim-length :
      (j : ℕ) (others : List (Value F)) (p : Placement) (o : Option (ℕ × List (Text × List ℕ)))
      → length (claim_or_add debug stored among j others p o).placed ≡ length p.placed
  unfolding claim_or_add
  claim-length j others p none = refl
  claim-length j others p (some (b, left)) = length-set j (stored_at stored b).0 p.placed

  place-length :
      (j : ℕ) (others : List (Value F)) (p : Placement)
      → length (place debug stored at among j others p).placed ≡ length p.placed
  unfolding place
  place-length j others p = claim-length j others p (pop_index (ident debug others at) p.unclaimed)

  later-Kept :
      (i j : ℕ) (cells : List (Value F)) (rows : List (List (Value F))) (p : Placement)
      → Agrees debug stored at among p
      → i < j
      → Kept debug stored at among i cells p
      → Kept debug stored at among i cells (place_from debug stored at among j rows p)
  unfolding place_from
  later-Kept i j cells [] p agrees h kept = kept
  later-Kept i j cells (others ∷ rows) p agrees h kept =
      later-Kept i (suc j) cells rows (place debug stored at among j others p)
        (Agrees-place debug stored at among j others p agrees) (omega arith)
        (place-other i j cells others p agrees (ground arith) kept)

  loop-Kept :
      (j k : ℕ) (cells : List (Value F)) (rows : List (List (Value F))) (p : Placement)
      → Agrees debug stored at among p
      → Fresh debug stored at among j p
      → j + length rows ≤ length p.placed
      → get_elem? rows k ≡ some cells
      → Kept debug stored at among (j + k) cells (place_from debug stored at among j rows p)
  unfolding place_from
  loop-Kept j k cells [] p agrees fresh h e = ground (arith, e)
  loop-Kept j zero cells (others ∷ rows) p agrees fresh h e =
      let same : others ≡ cells = ground (arith, e) in
      let here = place-here j cells p agrees fresh (omega arith) in
      let q = place debug stored at among j cells p in
      rw (same, plus_zero j)
        (later-Kept j (suc j) cells rows q (Agrees-place debug stored at among j cells p agrees)
          (omega arith) here)
    where
      plus_zero : (j : ℕ) → j + 0 ≡ j
      plus_zero j = omega arith
  loop-Kept j (suc k) cells (others ∷ rows) p agrees fresh h e =
      let q = place debug stored at among j others p in
      rw (shift j k) (
        loop-Kept (suc j) k cells rows q (Agrees-place debug stored at among j others p agrees)
          (place-Fresh j others p agrees fresh) (omega (arith, place-length j others p)) e)
    where
      shift : (j k : ℕ) → j + suc k ≡ suc j + k
      shift j k = omega arith

  pub loop-Fresh :
      (j : ℕ) (rows : List (List (Value F))) (p : Placement)
      → Agrees debug stored at among p
      → Fresh debug stored at among j p
      → Fresh debug stored at among (j + length rows) (place_from debug stored at among j rows p)
  unfolding place_from
  loop-Fresh j [] p agrees fresh = rw (none_more j) fresh
    where
      none_more : (j : ℕ) → j + 0 ≡ j
      none_more j = omega arith
  loop-Fresh j (cells ∷ rows) p agrees fresh = rw (one_more j (length rows)) (
      loop-Fresh (suc j) rows (place debug stored at among j cells p)
        (Agrees-place debug stored at among j cells p agrees) (place-Fresh j cells p agrees fresh))
    where
      one_more : (j n : ℕ) → j + suc n ≡ suc j + n
      one_more j n = omega arith

  pub loop-length :
      (j : ℕ) (rows : List (List (Value F))) (p : Placement)
      → length (place_from debug stored at among j rows p).placed ≡ length p.placed
  unfolding place_from
  loop-length j [] p = refl
  loop-length j (cells ∷ rows) p =
      loop-length (suc j) rows (place debug stored at among j cells p) ∙ place-length j cells p

  pub start-Fresh :
      (rows : List (List (Value F))) → Fresh debug stored at among 0 (start debug stored rows at)
  unfolding start
  start-Fresh rows = record {
    unclaimed = λ b e. refl;
    later = λ j h. refl;
    inside = refl;
    flags = length-map (λ x. false) stored;
  }

low_index : (i j : ℕ) (flags : List Bool) → i < j → has_index i (marked_from j flags) ≡ false
unfolding marked_from
low_index i j [] h = refl
low_index i j (true ∷ flags) h =
    let apart : (j == i) ≡ false = ground arith in
    rw apart (low_index i (suc j) flags (omega arith))
low_index i j (false ∷ flags) h = low_index i (suc j) flags (omega arith)

not_removed :
    (i a : ℕ) (claimed : List Bool)
    → get_elem? claimed a ≡ some true
    → has_index (i + a) (marked_from i (map not claimed)) ≡ false
unfolding marked_from
not_removed i a [] e = ground (arith, e)
not_removed i zero (true ∷ claimed) e = low_index (i + 0) (suc i) (map not claimed) (omega arith)
not_removed i zero (false ∷ claimed) e = ground (arith, e)
not_removed i (suc a) (true ∷ claimed) e =
    ap (λ k. has_index k (marked_from (suc i) (map not claimed))) (omega arith)
    ∙ not_removed (suc i) a claimed e
not_removed i (suc a) (false ∷ claimed) e =
    let apart : (i == (i + suc a)) ≡ false = ground arith in
    rw apart (
      ap (λ k. has_index k (marked_from (suc i) (map not claimed))) (omega arith)
      ∙ not_removed (suc i) a claimed e)

marked_from-below :
    (i n : ℕ) (flags : List Bool)
    → i + length flags ≤ n
    → all (λ b. ltb b n) (marked_from i flags) ≡ true
unfolding marked_from
marked_from-below i n [] h = refl
marked_from-below i n (true ∷ flags) h =
    ground (arith, h, marked_from-below (suc i) n flags (omega (arith, h)))
marked_from-below i n (false ∷ flags) h = marked_from-below (suc i) n flags (omega (arith, h))

module _ {F : Type 0} (debug : List (Value F) → Text) (stored : List (StoredRow F)) where
  -- What is deleted and updated is stored, and there is a rowid for each new row.
  pub plan_rows-within :
      (rows : ShapedRows F) (key : Option (List ℕ))
      → (all (λ b. ltb b (length stored)) (plan_rows debug stored rows key).removed ≡ true)
        × (all (λ pair. ltb pair.0 (length stored)) (plan_rows debug stored rows key).updated
            ≡ true)
        × (length (plan_rows debug stored rows key).placed ≡ length rows.cells)
  unfolding plan_rows plan_of start
  plan_rows-within rows key =
      let among = compared rows in
      let at = match_on key among in
      let p = start debug stored rows.cells at in
      let ends = place_from debug stored at among 0 rows.cells p in
      let fresh =
        loop-Fresh debug stored at among 0 rows.cells p
          (Agrees-start debug stored at among rows.cells)
          (start-Fresh debug stored at among rows.cells) in
      (
        marked_from-below 0 (length stored) (map not ends.claimed)
            (omega (arith, length-map not ends.claimed, fresh.flags)),
        fresh.inside,
        loop-length debug stored at among 0 rows.cells p ∙ length-map (λ x. pos 0) rows.cells,
      )

  -- Where the plan puts a new row: it is inserted, or it gets the rowid of a stored row with its
  -- identity, which is not deleted, and which is updated for it alone if it differs from it.
  abbrev pub IsPlaced : Plan → List ℕ → List ℕ → ℕ → List (Value F) → Type 0
  IsPlaced plan at among i cells =
      (has_index i plan.added ≡ true)
      ⊎ ((a : ℕ) × (row : StoredRow F) × (get_elem? stored a ≡ some row)
          × (get_elem? plan.placed i ≡ some row.0)
          × (ident debug row.1 at ≡ ident debug cells at)
          × (has_index a plan.removed ≡ false)
          × (has_index i plan.added ≡ false)
          × (updates_of a plan.updated
              ≡ (if is_changed debug row.1 cells among then i ∷ [] else [])))

  Kept-IsPlaced :
      (at among : List ℕ) (i : ℕ) (cells : List (Value F)) (p : Placement)
      → Kept debug stored at among i cells p
      → IsPlaced (plan_of debug p) at among i cells
  unfolding plan_of
  Kept-IsPlaced at among i cells p (inl added) = inl added
  Kept-IsPlaced at among i cells p (inr (a, row, there, placed, same, claimed, absent, changes)) =
      inr (
        a,
        row,
        there,
        placed,
        same,
        ap (λ k. has_index k (marked_from 0 (map not p.claimed))) (omega arith)
            ∙ not_removed 0 a p.claimed claimed,
        absent,
        changes,
      )

  started-IsPlaced :
      (rows : List (List (Value F))) (at among : List ℕ) (i : ℕ) (cells : List (Value F))
      → get_elem? rows i ≡ some cells
      → IsPlaced
          (plan_of debug (place_from debug stored at among 0 rows (start debug stored rows at)))
          at
          among
          i
          cells
  unfolding start
  started-IsPlaced rows at among i cells e =
      let p = start debug stored rows at in
      let kept =
        loop-Kept debug stored at among 0 i cells rows p (Agrees-start debug stored at among rows)
          (start-Fresh debug stored at among rows) (omega (arith, length-map (λ x. pos 0) rows))
          e in
      Kept-IsPlaced at among i cells (place_from debug stored at among 0 rows p)
        (let kept' = rw (zero_plus i) at kept in kept')
    where
      zero_plus : (i : ℕ) → 0 + i ≡ i
      zero_plus i = omega arith

  -- Every new row is placed: it is inserted, or it gets the rowid of a stored row with its identity,
  -- which is then not deleted, and is updated for it alone exactly if its emitted cells differ.
  pub plan_rows-IsPlaced :
      (rows : ShapedRows F) (key : Option (List ℕ)) (i : ℕ) (cells : List (Value F))
      → get_elem? rows.cells i ≡ some cells
      → IsPlaced
          (plan_rows debug stored rows key)
          (match_on key (compared rows))
          (compared rows)
          i
          cells
  unfolding plan_rows
  plan_rows-IsPlaced rows key i cells e =
      started-IsPlaced rows.cells (match_on key (compared rows)) (compared rows) i cells e
