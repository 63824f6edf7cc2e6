-- ===== src/VtabScaffold/Plan.antt =====
-- packages/rust/src/vtab_scaffold.rs (`best_index` and what it calls): the choice of a lookup, and the
-- number that carries it to the cursor. SQLite hands that number back as it got it, so it is never
-- negative; costs are whole numbers.
pub mod Choice
use mathlib.Core.Option
use dirsql.Prelude.{
  ℕ, zero, suc, ◌+◌, ◌-◌, ◌/◌, ◌%◌, ◌^◌, Bool, true, false, ◌&&◌, Option, none, some, List, [], ◌∷◌,
  leb, ltb, ◌==◌, if◌then◌else◌,
}
use dirsql.Prelude.Int.{ℤ, pos, eq_ℤ}

abbrev pub scan_cost : ℕ
scan_cost = 1000

abbrev pub lookup_cost_plain : ℕ
lookup_cost_plain = 10

abbrev pub prefetch_lookup_cost : ℕ
prefetch_lookup_cost = 100

abbrev pub scan_idx : ℕ
scan_idx = 0

abbrev pub prefetch_idx : ℕ
prefetch_idx = 2 ^ 30

abbrev pub i32_max : ℕ
i32_max = 2 ^ 31 - 1

pub record Constraint : Type 0 where
  pub column : ℤ
  pub usable : Bool
  pub equality : Bool

pub record Lookup : Type 0 where
  pub constraint : ℕ
  pub column : ℕ

abbrev pub answers : ℕ → Constraint → Bool
answers column c = c.usable && c.equality && eq_ℤ c.column (pos column)

-- `position`, counted from `i`.
position_from : ℕ → ℕ → List Constraint → Option ℕ
position_from i column [] = none
position_from i column (c ∷ constraints) =
    if answers column c then some i else position_from (suc i) column constraints

-- The closure of `choose_lookup`, for one column.
lookup_on : ℕ → List Constraint → Option Lookup
unfolding position_from
lookup_on column constraints =
    if leb column i32_max
    then Option.map (λ i. record { constraint = i; column = column })
        (position_from 0 column constraints)
    else none

or_later : Option Lookup → Option Lookup → Option Lookup
or_later (some lookup) later = some lookup
or_later none later = later

pub choose_lookup : List ℕ → List Constraint → Option Lookup
unfolding lookup_on or_later
choose_lookup [] constraints = none
choose_lookup (column ∷ columns) constraints =
    or_later (lookup_on column constraints) (choose_lookup columns constraints)

pub lookup_idx_num : ℕ → ℕ
lookup_idx_num column = if leb (column + 1) i32_max then column + 1 else scan_idx

pub lookup_cost : Bool → ℕ
lookup_cost prefetch = if prefetch then prefetch_lookup_cost else lookup_cost_plain

idx_of : Option ℕ → ℕ
unfolding lookup_idx_num
idx_of none = scan_idx
idx_of (some column) = lookup_idx_num column

unfoldable pub plan_idx_num : Option ℕ → Bool → ℕ
unfolding idx_of
plan_idx_num lookup prefetch = if prefetch then idx_of lookup + prefetch_idx else idx_of lookup

-- `idx_num & PREFETCH_IDX != 0`
unfoldable pub prefetches : ℕ → Bool
prefetches idx_num = idx_num / prefetch_idx % 2 == 1

unfoldable pub checked_pred : ℕ → Option ℕ
checked_pred zero = none
checked_pred (suc n) = some n

-- `idx_num & !PREFETCH_IDX`, less one.
unfoldable pub lookup_column : ℕ → Option ℕ
unfolding prefetches checked_pred
lookup_column idx_num =
    checked_pred (if prefetches idx_num then idx_num - prefetch_idx else idx_num)

pub names_column : ℕ → ℕ → Bool
names_column col_used column = ltb column 64 && (col_used / 2 ^ column % 2 == 1)

-- What `best_index` tells SQLite: the constraint whose value it wants as the first argument, the
-- number, and the cost.
pub record Offer : Type 0 where
  pub argument : Option ℕ
  pub idx_num : ℕ
  pub cost : ℕ

offer : Bool → Option Lookup → Offer
unfolding lookup_cost
offer prefetch none = record {
  argument = none;
  idx_num = plan_idx_num none prefetch;
  cost = scan_cost;
}
offer prefetch (some lookup) = record {
  argument = some lookup.constraint;
  idx_num = plan_idx_num (some lookup.column) prefetch;
  cost = lookup_cost prefetch;
}

pub wants : Option ℕ → ℕ → Bool
unfolding names_column
wants none col_used = false
wants (some column) col_used = names_column col_used column

-- `prefetch_column` and `lookup_columns` are the source's.
pub best_index : Option ℕ → List ℕ → ℕ → List Constraint → Offer
unfolding choose_lookup offer wants
best_index prefetch_column lookup_columns col_used constraints =
    offer (wants prefetch_column col_used) (choose_lookup lookup_columns constraints)
