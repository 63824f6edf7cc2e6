-- ===== src/VtabScaffold/Cursor/Run.antt =====
-- packages/rust/src/vtab_scaffold.rs: what SQLite reads from a cursor, from a filter to the end.

use mathlib.Core.Option
use mathlib.Core.List.{flatten}
use dirsql.Prelude.{
  ℕ, zero, suc, ◌+◌, ◌≤◌, ◌<◌, ◌≡◌, refl, sym, ap, ◌∙◌, Bool, true, false, Option, none, some, List,
  [], ◌∷◌, map, Text, length, drop, all, get_elem?, leb, if◌then◌else◌, arith, Option-cases, inl,
  inr,
}
use dirsql.RowStream.{new}
use dirsql.RowStream.Position.{is_full, get-new}
use dirsql.VtabScaffold.Lookup.{is_key}
use dirsql.VtabScaffold.Cursor.{
  Reading, every, only, Cursor, advanced, next, next_selection, eof, at_end, is_none, current,
  current_of, paired, at_position, get_settled,
}
use dirsql.VtabScaffold.Cursor.Steps.{IsAt, reading_row-flatten, advanced-IsAt}

push_found : {A : Type 0} → Option A → Option (List A) → Option (List A)
push_found (some a) (some rest) = some (a ∷ rest)
push_found _ _ = none

module _ {R : Type 0} (held : List (List R)) where
  -- What SQLite does after a filter: it reads the current row until `eof`, with a `next` after each.
  -- The result is `none` where the fuel runs out, or where there is no row before the end.
  unfoldable pub collect : ℕ → Cursor R → Option (List (ℕ × R))
  unfolding push_found
  collect zero c = none
  collect (suc fuel) c = elim (eof held c) [
    | true ↦ some []
    | false ↦ push_found (current held c) (collect fuel (next held c))
  ]

  -- The rows with their positions, from `p` on.
  abbrev pub numbered : ℕ → List R → List (ℕ × R)
  numbered p [] = []
  numbered p (row ∷ rows) = (p, row) ∷ numbered (suc p) rows

  -- Those of them that have a key.
  abbrev pub keyed : (R → ℕ → Option Text) → ℕ → List R → ℕ → Text → List (ℕ × R)
  keyed row_key p [] column key = []
  keyed row_key p (row ∷ rows) column key =
      let rest = keyed row_key (suc p) rows column key in
      if is_key (row_key row column) key then (p, row) ∷ rest else rest

  -- The selection of the cursor stands for the items, and it has got to its step.
  pub data Follows (c : Cursor R) (items : List (ℕ × R)) : Type 0 where
    by_scan :
        (reading : Reading R)
        → c.rows ≡ some held
        → c.selection ≡ every reading
        → IsAt held c.step reading
        → items ≡ numbered 0 (flatten held)
        → Follows c items
    by_lookup :
        c.settled ≡ some (new held)
        → c.selection ≡ only (map (λ p. p.0) items)
        → ((i : ℕ) (p : ℕ × R)
            → get_elem? items i ≡ some p
            → get_elem? (flatten held) p.0 ≡ some p.1)
        → Follows c items

  get-numbered :
      (p i : ℕ) (rows : List R)
      → get_elem? (numbered p rows) i ≡ paired held (p + i) (get_elem? rows i)
  unfolding paired
  get-numbered p i [] = refl
  get-numbered p zero (row ∷ rows) = ap (λ q. some (q, row)) (omega arith)
  get-numbered p (suc i) (row ∷ rows) =
      get-numbered (suc p) i rows ∙ ap (λ q. paired held q (get_elem? rows i)) (omega arith)

  get-map :
      (items : List (ℕ × R)) (i : ℕ)
      → get_elem? (map (λ p. p.0) items) i ≡ Option.map (λ p. p.0) (get_elem? items i)
  get-map [] i = refl
  get-map (p ∷ items) zero = refl
  get-map (p ∷ items) (suc i) = get-map items i

  found-lookup :
      (items : List (ℕ × R)) (i : ℕ) (o : Option (ℕ × R))
      → get_elem? items i ≡ o
      → ((p : ℕ × R) → o ≡ some p → get_elem? (flatten held) p.0 ≡ some p.1)
      → at_position held (Option.map (λ p. p.0) o) (some (new held)) ≡ o
  unfolding at_position paired get_settled
  found-lookup items i none e valid = refl
  found-lookup items i (some (p, row)) e valid = rw (get-new held p, valid (p, row) refl) refl

  Follows-current :
      (c : Cursor R) (items : List (ℕ × R))
      → Follows c items
      → current held c ≡ get_elem? items c.step
  unfolding current current_of
  Follows-current c items (by_scan reading r e at i) =
      ap (λ s. current_of held s c.settled c.step) e
      ∙ ap (paired held c.step) (reading_row-flatten held reading c.step at)
      ∙ sym (
          get-numbered 0 c.step (flatten held)
          ∙ ap (λ q. paired held q (get_elem? (flatten held) c.step)) (omega arith))
      ∙ ap (λ l. get_elem? l c.step) (sym i)
  Follows-current c items (by_lookup settled e valid) =
      ap (λ s. current_of held s c.settled c.step) e
      ∙ ap (λ s. at_position held (get_elem? (map (λ p. p.0) items) c.step) s) settled
      ∙ ap (λ o. at_position held o (some (new held))) (get-map items c.step)
      ∙ found-lookup items c.step (get_elem? items c.step) refl (valid c.step)

  abbrev absent : Option (ℕ × R) → Bool
  absent none = true
  absent (some p) = false

  absent-paired : (p : ℕ) (o : Option R) → is_none held o ≡ absent (paired held p o)
  unfolding is_none paired
  absent-paired p none = refl
  absent-paired p (some row) = refl

  leb-absent :
      (items : List (ℕ × R)) (i : ℕ)
      → leb (length (map (λ p. p.0) items)) i ≡ absent (get_elem? items i)
  leb-absent [] i = ground arith
  leb-absent (p ∷ items) zero = ground arith
  leb-absent (p ∷ items) (suc i) = ground (arith, leb-absent items i)

  Follows-eof :
      (c : Cursor R) (items : List (ℕ × R))
      → Follows c items
      → eof held c ≡ absent (get_elem? items c.step)
  unfolding eof at_end
  Follows-eof c items (by_scan reading r e at i) =
      ap (λ s. at_end held s c.step) e
      ∙ ap (is_none held) (reading_row-flatten held reading c.step at)
      ∙ absent-paired c.step (get_elem? (flatten held) c.step)
      ∙ sym (
          ap absent (
            get-numbered 0 c.step (flatten held)
            ∙ ap (λ q. paired held q (get_elem? (flatten held) c.step)) (omega arith)))
      ∙ ap (λ l. absent (get_elem? l c.step)) (sym i)
  Follows-eof c items (by_lookup settled e valid) =
      ap (λ s. at_end held s c.step) e ∙ leb-absent items c.step

  Follows-next :
      (c : Cursor R) (items : List (ℕ × R))
      → all is_full held ≡ true
      → Follows c items
      → Follows (next held c) items
  unfolding next next_selection
  Follows-next c items full (by_scan reading r e at i) =
      by_scan (advanced reading held (c.step + 1)) r
        (ap (λ s. next_selection held s c.rows (c.step + 1)) e
          ∙ ap (λ rows. next_selection held (every reading) rows (c.step + 1)) r)
        (advanced-IsAt held reading c.step full at) i
  Follows-next c items full (by_lookup settled e valid) =
      by_lookup settled (ap (λ s. next_selection held s c.rows (c.step + 1)) e) valid

  drop-none : (items : List (ℕ × R)) (i : ℕ) → get_elem? items i ≡ none → drop i items ≡ []
  drop-none [] zero e = refl
  drop-none [] (suc i) e = refl
  drop-none (p ∷ items) zero e = ground (arith, e)
  drop-none (p ∷ items) (suc i) e = drop-none items i e

  drop-some :
      (items : List (ℕ × R)) (i : ℕ) (p : ℕ × R)
      → get_elem? items i ≡ some p
      → (drop i items ≡ p ∷ drop (i + 1) items) × (i < length items)
  drop-some [] i p e = ground (arith, e)
  drop-some (q ∷ items) zero p e = (ground (arith, e), omega arith)
  drop-some (q ∷ items) (suc i) p e =
      let (rest, within) = drop-some items i p e in
      (rest ∙ ap (λ k. p ∷ drop k (q ∷ items)) suc_add, omega (arith, within))
    where
      suc_add : suc (i + 1) ≡ suc i + 1
      suc_add = omega arith

  collect-step :
      (fuel : ℕ) (c : Cursor R) (p : ℕ × R) (rest : List (ℕ × R))
      → eof held c ≡ false
      → current held c ≡ some p
      → collect fuel (next held c) ≡ some rest
      → collect (suc fuel) c ≡ some (p ∷ rest)
  unfolding collect push_found
  collect-step fuel c p rest e f g = rw (e, f, g, collect) refl

  collect-end : (fuel : ℕ) (c : Cursor R) → eof held c ≡ true → collect (suc fuel) c ≡ some []
  unfolding collect
  collect-end fuel c e = rw (e, collect) refl

  -- From a state that stands for the items, SQLite reads those that are left.
  pub collect-Follows :
      (fuel : ℕ) (c : Cursor R) (items : List (ℕ × R))
      → all is_full held ≡ true
      → Follows c items
      → c.step ≤ length items
      → length items < fuel + c.step
      → collect fuel c ≡ some (drop c.step items)
  unfolding next
  collect-Follows zero c items full f h g = absurd (omega arith)
  collect-Follows (suc fuel) c items full f h g = elim (Option-cases (get_elem? items c.step)) [
    | inl end ↦
        collect-end fuel c (Follows-eof c items f ∙ ap absent end)
        ∙ ap some (sym (drop-none items c.step end))
    | inr (p, found) ↦
        let split = drop-some items c.step p found in
        collect-step fuel c p (drop (c.step + 1) items) (Follows-eof c items f ∙ ap absent found)
          (Follows-current c items f ∙ found)
          (collect-Follows fuel (next held c) items full (Follows-next c items full f)
            (omega (arith, split.1)) (omega (arith, split.1, g)))
        ∙ ap some (sym (split.0))
  ]
