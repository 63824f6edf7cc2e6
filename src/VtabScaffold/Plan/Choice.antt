-- ===== src/VtabScaffold/Plan/Choice.antt =====
-- packages/rust/src/vtab_scaffold.rs (`plan_idx_num`, `prefetches`, `lookup_column`): the number that
-- carries a plan brings it back.
use mathlib.Core.Option
use dirsql.Prelude.{
  ℕ, suc, ◌+◌, ◌-◌, ◌≤◌, ◌<◌, ◌≡◌, refl, sym, ap, ◌∙◌, Bool, true, false, not, Option, none, some,
  List, [], ◌∷◌, all, get_elem?, ltb, if◌then◌else◌, arith, Bool-cases, Option-cases, inl, inr,
}
use dirsql.VtabScaffold.Plan.{
  Constraint, Lookup, answers, position_from, lookup_on, or_later, choose_lookup, prefetch_idx,
  lookup_idx_num, idx_of, plan_idx_num, prefetches, checked_pred, lookup_column, offer, wants,
  best_index,
}

low-prefetches : (n : ℕ) → n < prefetch_idx → prefetches n ≡ false
unfolding prefetches
low-prefetches n h = ground arith

high-prefetches : (n : ℕ) → n < prefetch_idx → prefetches (n + prefetch_idx) ≡ true
unfolding prefetches
high-prefetches n h = ground arith

lookup_column-low : (n : ℕ) → n < prefetch_idx → lookup_column n ≡ checked_pred n
unfolding lookup_column
lookup_column-low n h = rw (low-prefetches n h) refl

lookup_column-high : (n : ℕ) → n < prefetch_idx → lookup_column (n + prefetch_idx) ≡ checked_pred n
unfolding lookup_column
lookup_column-high n h = rw (high-prefetches n h) (ap checked_pred (omega arith))

both :
    (o : Option ℕ) (prefetch : Bool)
    → idx_of o < prefetch_idx
    → (lookup_column (plan_idx_num o prefetch) ≡ checked_pred (idx_of o))
      × (prefetches (plan_idx_num o prefetch) ≡ prefetch)
unfolding plan_idx_num
both o true h = (lookup_column-high (idx_of o) h, high-prefetches (idx_of o) h)
both o false h = (lookup_column-low (idx_of o) h, low-prefetches (idx_of o) h)

idx_of-some : (column : ℕ) → column + 1 < prefetch_idx → idx_of (some column) ≡ suc column
unfolding idx_of lookup_idx_num
idx_of-some column h = ground arith

-- No constraint answers the column.
abbrev pub unanswered : List Constraint → ℕ → Bool
unanswered constraints column = all (λ c. not (answers column c)) constraints

-- The lookup is of a column of the source, by a constraint that answers it.
abbrev pub IsAnswer : List Constraint → Option Lookup → Type 0
IsAnswer constraints none = Unit
IsAnswer constraints (some lookup) =
    (c : Constraint) × (get_elem? constraints lookup.constraint ≡ some c)
    × (answers lookup.column c ≡ true)

some_inj : {A : Type 0} (a b : A) → some a ≡ some b → a ≡ b
some_inj a b e = ground (arith, e)

position-found :
    (i column : ℕ) (constraints : List Constraint) (k : ℕ)
    → position_from i column constraints ≡ some k
    → (i ≤ k)
      × ((c : Constraint) × (get_elem? constraints (k - i) ≡ some c) × (answers column c ≡ true))
unfolding position_from
position-found i column [] k e = ground (arith, e)
position-found i column (c ∷ constraints) k e = elim (Bool-cases (answers column c)) [
  | inl has ↦
      let here = some_inj i k (let e' = rw has at e in e') in
      (omega (arith, here), (c, ap (get_elem? (c ∷ constraints)) (no_less i k here), has))
  | inr has ↦
      let (past, (d, found, ok)) =
        position-found (suc i) column constraints k (let e' = rw has at e in e') in
      (omega (arith, past), (d, ap (get_elem? (c ∷ constraints)) (one_less i k past) ∙ found, ok))
]
  where
    no_less : (i k : ℕ) → i ≡ k → k - i ≡ 0
    no_less i k e = omega arith

    one_less : (i k : ℕ) → suc i ≤ k → k - i ≡ suc (k - suc i)
    one_less i k h = omega arith

position-none :
    (i column : ℕ) (constraints : List Constraint)
    → (position_from i column constraints ≡ none → unanswered constraints column ≡ true)
      × ((k : ℕ)
          → position_from i column constraints ≡ some k
          → unanswered constraints column ≡ false)
unfolding position_from
position-none i column [] = (λ e. refl, λ k e. ground (arith, e))
position-none i column (c ∷ constraints) = elim (Bool-cases (answers column c)) [
  | inl has ↦ rw has (λ e. ground (arith, e), λ k e. refl)
  | inr has ↦ rw has (position-none (suc i) column constraints)
]

-- The first of the columns that a constraint answers.
abbrev pub preferred : List ℕ → List Constraint → Option ℕ
preferred [] constraints = none
preferred (column ∷ columns) constraints =
    if unanswered constraints column then preferred columns constraints else some column

abbrev pub fits : ℕ → Bool
fits column = ltb (column + 1) prefetch_idx

abbrev column_of : Option Lookup → Option ℕ
column_of lookup = Option.map (λ l. l.column) lookup

made :
    (column : ℕ) (constraints : List Constraint)
    → fits column ≡ true
    → lookup_on column constraints
      ≡ Option.map
          (λ i. record { constraint = i; column = column })
          (position_from 0 column constraints)
unfolding lookup_on
made column constraints h = ground arith

omega_fits : (column : ℕ) → fits column ≡ true → column + 1 < prefetch_idx
omega_fits column h = ground arith

low_idx : (column : ℕ) → column + 1 < prefetch_idx → idx_of (some column) < prefetch_idx
low_idx column h = rw (idx_of-some column h) (omega arith)

less_zero : (i : ℕ) → i ≡ i - 0
less_zero i = omega arith

choose-preferred :
    (columns : List ℕ) (constraints : List Constraint)
    → all fits columns ≡ true
    → (column_of (choose_lookup columns constraints) ≡ preferred columns constraints)
      × IsAnswer constraints (choose_lookup columns constraints)
      × (idx_of (preferred columns constraints) < prefetch_idx)
      × (checked_pred (idx_of (preferred columns constraints)) ≡ preferred columns constraints)
unfolding choose_lookup or_later idx_of checked_pred
choose-preferred [] constraints h = (refl, tt, omega arith, refl)
choose-preferred (column ∷ columns) constraints h =
    elim (Option-cases (position_from 0 column constraints)) [
      | inl missing ↦
          let e = made column constraints (ground (arith, h)) in
          rw (e, missing, (position-none 0 column constraints).0 missing)
            (choose-preferred columns constraints (ground (arith, h)))
      | inr (i, found) ↦
          let e = made column constraints (ground (arith, h)) in
          let (low, (c, there, ok)) = position-found 0 column constraints i found in
          rw (e, found, (position-none 0 column constraints).1 i found)
            (
              refl,
              (c, ap (get_elem? constraints) (less_zero i) ∙ there, ok),
              low_idx column (omega_fits column (ground (arith, h))),
              ap checked_pred (idx_of-some column (omega_fits column (ground (arith, h)))),
            )
    ]

offer-Plan :
    (prefetch : Bool) (lookup : Option Lookup)
    → idx_of (column_of lookup) < prefetch_idx
    → checked_pred (idx_of (column_of lookup)) ≡ column_of lookup
    → (lookup_column (offer prefetch lookup).idx_num ≡ column_of lookup)
      × (prefetches (offer prefetch lookup).idx_num ≡ prefetch)
      × ((offer prefetch lookup).argument ≡ Option.map (λ l. l.constraint) lookup)
unfolding offer
offer-Plan prefetch none low pred =
    let (back, ahead) = both none prefetch low in (back ∙ pred, ahead, refl)
offer-Plan prefetch (some lookup) low pred =
    let (back, ahead) = both (some lookup.column) prefetch low in (back ∙ pred, ahead, refl)

-- The constraint of an offer is a usable equality on the column; without a column there is none.
abbrev pub Answers : List Constraint → Option ℕ → Option ℕ → Type 0
Answers constraints (some column) (some i) =
    (c : Constraint) × (get_elem? constraints i ≡ some c) × (answers column c ≡ true)
Answers constraints none none = Unit
Answers constraints _ _ = ⊥

IsAnswer-Answers :
    (constraints : List Constraint) (lookup : Option Lookup)
    → IsAnswer constraints lookup
    → Answers constraints (column_of lookup) (Option.map (λ l. l.constraint) lookup)
IsAnswer-Answers constraints none h = tt
IsAnswer-Answers constraints (some lookup) h = h

-- Where every column that the source can look up is below 2 ^ 30 - 1: what the cursor reads from the
-- number that `best_index` offers is the first of those columns that a usable equality is on, and
-- whether the column that asks for a read ahead is used; and the value that `best_index` wants as the
-- first argument is of such an equality on that column, or there is neither.
pub best_index-lookup_column :
    (prefetch_column : Option ℕ) (columns : List ℕ) (col_used : ℕ) (constraints : List Constraint)
    → all fits columns ≡ true
    → (lookup_column (best_index prefetch_column columns col_used constraints).idx_num
        ≡ preferred columns constraints)
      × (prefetches (best_index prefetch_column columns col_used constraints).idx_num
          ≡ wants prefetch_column col_used)
      × Answers constraints
          (preferred columns constraints)
          (best_index prefetch_column columns col_used constraints).argument
unfolding best_index
best_index-lookup_column prefetch_column columns col_used constraints h =
    let (same, answer, low, pred) = choose-preferred columns constraints h in
    let lookup = choose_lookup columns constraints in
    let (back, ahead, argument) =
      offer-Plan (wants prefetch_column col_used) lookup (rw same low) (rw same pred) in
    (back ∙ same, ahead, rw (argument, sym same) (IsAnswer-Answers constraints lookup answer))
