-- ===== src/Reconcile/Apply/Merge.antt =====
-- packages/rust/src/db.rs (`reconcile_rows`): the cells of an updated row.
use mathlib.Core.List.{filter_map}
use mathlib.Core.Option.{Option-elim}
use dirsql.Prelude.{
  ℕ, zero, suc, ◌≤◌, ◌≡◌, refl, sym, ap, ap₂, ◌∙◌, inl, inr, true, ◌||◌, Option, none, some, List,
  [], ◌∷◌, Text, get_elem?, length, ◌==◌, ==-refl, ==_iff, arith, Bool-cases, Option-cases,
}
use dirsql.Value.{Value}
use dirsql.Reconcile.{set_elem, ident}
use dirsql.Reconcile.Indexes.{has_index, get-set_elem, get-set_other, get-length, length-set}
use dirsql.Reconcile.Apply.{assign_all, bound_pairs}

filter_map-pointwise :
    {A : Type 0} (f g : ℕ → Option A) (at : List ℕ)
    → ((i : ℕ) → has_index i at ≡ true → f i ≡ g i)
    → filter_map f at ≡ filter_map g at
unfolding filter_map
filter_map-pointwise f g [] h = refl
filter_map-pointwise f g (i ∷ at) h =
    ap₂ (λ o rest. Option-elim o rest (λ b. b ∷ rest))
      (h i (ap (λ c. c || has_index i at) (==-refl i)))
      (filter_map-pointwise f g at (λ j e. h j (ground (arith, e))))

module _ {F : Type 0} where
  bound-none :
      (new : List (Value F)) (j : ℕ) (at : List ℕ)
      → get_elem? new j ≡ none
      → bound_pairs new (j ∷ at) ≡ bound_pairs new at
  unfolding bound_pairs
  bound-none new j at e = rw (bound_pairs, e) refl

  bound-some :
      (new : List (Value F)) (j : ℕ) (at : List ℕ) (v : Value F)
      → get_elem? new j ≡ some v
      → bound_pairs new (j ∷ at) ≡ (j, v) ∷ bound_pairs new at
  unfolding bound_pairs
  bound-some new j at v e = rw (bound_pairs, e) refl

  -- Setting one cell to the new row's.
  set_as :
      (new old : List (Value F)) (i j : ℕ) (v : Value F)
      → get_elem? new j ≡ some v
      → get_elem? old i ≡ get_elem? new i
      → get_elem? (set_elem j v old) i ≡ get_elem? new i
  set_as new old i j v e h = elim (Bool-cases (j == i)) [
    | inl same ↦
        let there = ap (get_elem? new) (sym ((==_iff j i).0 same)) ∙ e in
        ap (λ k. get_elem? (set_elem k v old) i) ((==_iff j i).0 same)
        ∙ get-set_elem i v old (get-length old i v (h ∙ there))
        ∙ sym there
    | inr apart ↦ get-set_other i j v old apart ∙ h
  ]

  assigned_as :
      (new old : List (Value F)) (at : List ℕ) (i : ℕ)
      → get_elem? old i ≡ get_elem? new i
      → get_elem? (assign_all (bound_pairs new at) old) i ≡ get_elem? new i
  unfolding assign_all bound_pairs
  assigned_as new old [] i h = h
  assigned_as new old (j ∷ at) i h = elim (Option-cases (get_elem? new j)) [
    | inl e ↦ rw (bound-none new j at e) (assigned_as new old at i h)
    | inr (v, e) ↦
        rw (bound-some new j at v e)
          (assigned_as new (set_elem j v old) at i (set_as new old i j v e h))
  ]

  out_of_range : (l : List (Value F)) (i : ℕ) → length l ≤ i → get_elem? l i ≡ none
  out_of_range [] i h = refl
  out_of_range (x ∷ l) zero h = absurd (omega (arith, h))
  out_of_range (x ∷ l) (suc i) h = out_of_range l i (omega (arith, h))

  past_end : (l : List (Value F)) (i : ℕ) → get_elem? l i ≡ none → length l ≤ i
  past_end [] i h = omega arith
  past_end (x ∷ l) zero h = ground (arith, h)
  past_end (x ∷ l) (suc i) h = omega (arith, past_end l i h)

  -- A cell that is assigned is the new row's.
  assigned :
      (new old : List (Value F)) (at : List ℕ) (i : ℕ)
      → length old ≡ length new
      → has_index i at ≡ true
      → get_elem? (assign_all (bound_pairs new at) old) i ≡ get_elem? new i
  unfolding assign_all
  assigned new old [] i h e = ground (arith, e)
  assigned new old (j ∷ at) i h e = elim (Bool-cases (j == i)) [
    | inl same ↦ assigned-here new old j at i h ((==_iff j i).0 same)
    | inr apart ↦
        let later : has_index i at ≡ true = ground (arith, e, apart) in
        elim (Option-cases (get_elem? new j)) [
          | inl absent ↦ rw (bound-none new j at absent) (assigned new old at i h later)
          | inr (v, there) ↦
              rw (bound-some new j at v there)
                (assigned new (set_elem j v old) at i (length-set j v old ∙ h) later)
        ]
  ]
    where
      assigned-here :
          (new old : List (Value F)) (j : ℕ) (at : List ℕ) (i : ℕ)
          → length old ≡ length new
          → j ≡ i
          → get_elem? (assign_all (bound_pairs new (j ∷ at)) old) i ≡ get_elem? new i
      assigned-here new old j at i h same = elim (Option-cases (get_elem? new j)) [
        | inl absent ↦ rw (bound-none new j at absent) (
            assigned_as new old at i (
              out_of_range old i (omega (arith, h, same, past_end new j absent))
              ∙ sym (ap (get_elem? new) (sym same) ∙ absent)))
        | inr (v, there) ↦ rw (bound-some new j at v there) (
            assigned_as new (set_elem j v old) at i (
              ap (λ k. get_elem? (set_elem k v old) i) same
              ∙ get-set_elem i v old (omega (arith, h, same, get-length new j v there))
              ∙ sym (ap (get_elem? new) (sym same) ∙ there)))
      ]

  -- An updated row has the new row's compared cells.
  pub ident-assign_all :
      (debug : List (Value F) → Text) (new old : List (Value F)) (at : List ℕ)
      → length old ≡ length new
      → ident debug (assign_all (bound_pairs new at) old) at ≡ ident debug new at
  unfolding ident
  ident-assign_all debug new old at h = ap debug (
      filter_map-pointwise (get_elem? (assign_all (bound_pairs new at) old)) (get_elem? new) at
        (λ i e. assigned new old at i h e))
