-- ===== src/Reconcile/Counts.antt =====
-- packages/rust/src/db.rs (`reconcile_rows`): how many rows of an identity are deleted and inserted.
pub mod Loop
use mathlib.Core.List.{filter_map}
use dirsql.Prelude.{
  ℕ, zero, suc, ◌+◌, ◌-◌, ◌≤◌, ◌<◌, ◌≡◌, refl, sym, ap, ◌∙◌, ◌⊎◌, inl, inr, Bool, true, false, not,
  ◌&&◌, Option, none, some, List, [], ◌∷◌, ◌++◌, map, Text, text_eq, text_eq_iff, text_eq_refl,
  get_elem?, length, length-map, drop, if◌then◌else◌, arith, Bool-cases, Option-cases,
}
use dirsql.Prelude.Int.{ℤ}
use dirsql.Value.{Value}
use dirsql.Reconcile.Unclaimed.{pop_index, indexes_of}
use dirsql.Reconcile.Unclaimed.Pop.{Pops, pop_index-Pops}
use dirsql.Reconcile.Free.{when, free, free-unclaimed, free-Claims}
use dirsql.Reconcile.{
  StoredRow, ShapedRows, Placement, Plan, set_elem, marked_from, repeated, stored_at, cells_at,
  compared, match_on, ident, is_changed, claim_or_add, place, place_from, start, plan_of, plan_rows,
}

abbrev pub add_if : Bool → ℕ → ℕ
add_if b n = if b then suc n else n

module _ {F : Type 0} (debug : List (Value F) → Text) (stored : List (StoredRow F))
    (at among : List ℕ) where
  -- How many of the rows have the identity.
  abbrev pub count : Text → List (List (Value F)) → ℕ
  count k [] = 0
  count k (cells ∷ rows) = add_if (text_eq (ident debug cells at) k) (count k rows)

  abbrev pub ids : List Text
  ids = map (λ row. ident debug row.1 at) stored

  -- The map and the flags agree.
  pub record Agrees (p : Placement) : Type 0 where
    pub held : (k : Text) → indexes_of k p.unclaimed ≡ free 0 ids p.claimed k
    pub flags : length p.claimed ≡ length stored

  length-set_elem :
      {A : Type 0} (i : ℕ) (a : A) (xs : List A) → length (set_elem i a xs) ≡ length xs
  unfolding set_elem
  length-set_elem i a [] = refl
  length-set_elem zero a (x ∷ xs) = refl
  length-set_elem (suc i) a (x ∷ xs) = ap suc (length-set_elem i a xs)

  length-repeated : {A : Type 0} (xs : List A) → length (repeated false xs) ≡ length xs
  length-repeated xs = length-map (λ x. false) xs

  pub Agrees-start : (rows : List (List (Value F))) → Agrees (start debug stored rows at)
  unfolding start
  Agrees-start rows = record {
    held = free-unclaimed debug 0 stored at;
    flags = length-repeated stored;
  }

  -- What a popped index leaves free.
  pub Agrees-claim :
      (index : ℕ) (cells : List (Value F)) (p : Placement) (o : Option (ℕ × List (Text × List ℕ)))
      → Agrees p
      → Pops (ident debug cells at) p.unclaimed o
      → Agrees (claim_or_add debug stored among index cells p o)
  unfolding claim_or_add
  Agrees-claim index cells p none agrees pops = record { held = agrees.held; flags = agrees.flags }
  Agrees-claim index cells p (some (a, left)) agrees (rest, e, others) =
      let key = ident debug cells at in
      let (low, found, claims) =
        free-Claims 0 ids p.claimed key a rest (sym (agrees.held key) ∙ e) in
      record {
        held = λ k.
            others k
            ∙ ap (λ l. if text_eq key k then rest else l) (agrees.held k)
            ∙ sym (claims k)
            ∙ ap (λ i. free 0 ids (set_elem i true p.claimed) k) (less_zero a);
        flags = length-set_elem a true p.claimed ∙ agrees.flags;
      }
    where
      less_zero : (i : ℕ) → i - 0 ≡ i
      less_zero i = omega arith

  abbrev pub left : Placement → Text → ℕ
  left p k = length (free 0 ids p.claimed k)

  -- How many of the rows of a file that are to be inserted have the identity.
  abbrev pub added_count : List (List (Value F)) → Placement → Text → ℕ
  added_count rows p k = count k (map (cells_at rows) p.added)

  count-snoc :
      (k : Text) (rows : List (List (Value F))) (added : List ℕ) (index : ℕ)
      → count k (map (cells_at rows) (added ++ index ∷ []))
        ≡ count k (map (cells_at rows) added)
          + add_if (text_eq (ident debug (cells_at rows index) at) k) 0
  count-snoc k rows [] index = omega arith
  count-snoc k rows (i ∷ added) index = ground (arith, count-snoc k rows added index)

  length-if :
      (b : Bool) (l rest : List ℕ)
      → length (if b then rest else l) ≡ (if b then length rest else length l)
  length-if true l rest = refl
  length-if false l rest = refl

  if-pred :
      (b : Bool) (n l r : ℕ)
      → n ≡ (if b then r else l)
      → (b ≡ true → l ≡ suc r)
      → n ≡ l - add_if b 0
  if-pred true n l r e h = omega (arith, e, h refl)
  if-pred false n l r e h = omega (arith, e)

  if-zero : (b : Bool) (n : ℕ) → (b ≡ true → n ≡ 0) → n ≡ n - add_if b 0
  if-zero true n h = omega (arith, h refl)
  if-zero false n h = omega arith

  gains :
      (b : Bool) (a m l : ℕ) → m ≡ a + add_if b 0 → (b ≡ true → l ≡ 0) → m ≡ a + (add_if b 0 - l)
  gains true a m l e h = omega (arith, e, h refl)
  gains false a m l e h = omega (arith, e)

  keeps : (b : Bool) (a l r : ℕ) → (b ≡ true → l ≡ suc r) → a ≡ a + (add_if b 0 - l)
  keeps true a l r h = omega (arith, h refl)
  keeps false a l r h = omega arith

  -- One new row takes one of the free stored rows of its identity, or is inserted if there is none.
  pub claim-counts :
      (rows : List (List (Value F))) (index : ℕ) (cells : List (Value F)) (p : Placement)
      (o : Option (ℕ × List (Text × List ℕ))) (k : Text)
      → Agrees p
      → Pops (ident debug cells at) p.unclaimed o
      → cells_at rows index ≡ cells
      → (left (claim_or_add debug stored among index cells p o) k
          ≡ left p k - add_if (text_eq (ident debug cells at) k) 0)
        × (added_count rows (claim_or_add debug stored among index cells p o) k
            ≡ added_count rows p k + (add_if (text_eq (ident debug cells at) k) 0 - left p k))
  unfolding claim_or_add
  claim-counts rows index cells p none k agrees pops here =
      let b = text_eq (ident debug cells at) k in
      let empty : b ≡ true → free 0 ids p.claimed k ≡ [] = λ same.
        ap (free 0 ids p.claimed) (sym ((text_eq_iff (ident debug cells at) k).0 same))
        ∙ sym (agrees.held (ident debug cells at))
        ∙ pops in
      (
        if-zero b (left p k) (λ same. ap length (empty same)),
        gains b (added_count rows p k) _ (left p k)
            (count-snoc k rows p.added index
              ∙ ap (λ c. added_count rows p k + add_if (text_eq (ident debug c at) k) 0) here)
            (λ same. ap length (empty same)),
      )
  claim-counts rows index cells p (some (a, others)) k agrees (rest, e, pops) here =
      let b = text_eq (ident debug cells at) k in
      let full : b ≡ true → free 0 ids p.claimed k ≡ a ∷ rest = λ same.
        ap (free 0 ids p.claimed) (sym ((text_eq_iff (ident debug cells at) k).0 same))
        ∙ sym (agrees.held (ident debug cells at))
        ∙ e in
      let after = Agrees-claim index cells p (some (a, others)) agrees (rest, e, pops) in
      (
        if-pred b _ (left p k) (length rest)
            (ap length
                (sym (after.held k) ∙ pops k ∙ ap (λ l. if b then rest else l) (agrees.held k))
              ∙ length-if b (free 0 ids p.claimed k) rest)
            (λ same. ap length (full same)),
        keeps b (added_count rows p k) (left p k) (length rest) (λ same. ap length (full same)),
      )
