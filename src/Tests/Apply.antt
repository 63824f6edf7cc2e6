-- ===== src/Tests/Apply.antt =====
-- The statements on stored rows, on a small table.
use mathlib.Core.List.{filter_map}
use dirsql.Prelude.{
  ℕ, zero, suc, ◌≡◌, refl, sym, ap, Bool, true, false, not, ◌&&◌, ◌||◌, Option, none, some, List,
  [], ◌∷◌, Text, if◌then◌else◌, arith, get_elem?, length, ◌∙◌,
}
use dirsql.Prelude.Int.{ℤ, pos, eq_ℤ, eq_ℤ_iff}
use dirsql.Value.{Value, integer}
use dirsql.Reconcile.{StoredRow, ShapedRows, compared, plan_rows}
use dirsql.Reconcile.Apply.{wrote, collided, assign_all, Statements, StatementLaws, apply_plan}
use dirsql.Reconcile.Unclaimed.{pop_index}
use dirsql.Reconcile.Apply.Rows.{IsStored, apply_plan-IsStored}

-- A table of two columns, the second of which is unique among the rows 1 and 2, and its next rowid.
abbrev Table : Type 0
Table = (ℤ → Option (List (Value ℕ))) × ℕ

abbrev with_row : ℤ → Option (List (Value ℕ)) → Table → Table
with_row rowid row t = (λ r. if eq_ℤ rowid r then row else t.0 r, t.1)

abbrev second_is : Option (List (Value ℕ)) → List (ℕ × Value ℕ) → Bool
second_is (some (x ∷ integer (pos a) ∷ row)) (first ∷ (column, integer (pos b)) ∷ pairs) =
    eq_ℤ (pos a) (pos b)
second_is _ _ = false

abbrev is_taken : Table → ℤ → List (ℕ × Value ℕ) → Bool
is_taken t rowid pairs =
    (not (eq_ℤ rowid (pos 1)) && second_is (t.0 (pos 1)) pairs)
    || (not (eq_ℤ rowid (pos 2)) && second_is (t.0 (pos 2)) pairs)

abbrev assigned : List (ℕ × Value ℕ) → Option (List (Value ℕ)) → Option (List (Value ℕ))
assigned pairs none = none
assigned pairs (some cells) = some (assign_all pairs cells)

abbrev insert_at : Table → ℤ → Option (List (Value ℕ)) → List (Value ℕ) → Option (Table × ℤ)
insert_at t rowid none cells = some (((with_row rowid (some cells) t).0, suc t.1), rowid)
insert_at t rowid (some row) cells = none

abbrev table : Statements Table ℕ
table = record {
  delete = λ t rowid. some (with_row rowid none t);
  update = λ t rowid pairs.
      if is_taken t rowid pairs
      then collided
      else wrote (with_row rowid (assigned pairs (t.0 rowid)) t);
  replace = λ t rowid cells. some (with_row rowid (some cells) t);
  insert = λ t cells. insert_at t (pos t.1) (t.0 (pos t.1)) cells;
  row_at = λ t. t.0;
}

unwrapped : {A : Type 0} (x y : A) → some x ≡ some y → x ≡ y
unwrapped x y e = ground (arith, e)

same_row : (t u : Table) (rowid : ℤ) → some t ≡ some u → (r : ℤ) → u.0 r ≡ t.0 r
same_row t u rowid e r = ap (λ (x : Table). x.0 r) (sym (unwrapped t u e))

update_result :
    (c : Bool) (t u : Table) → (if c then collided else wrote t) ≡ wrote u → (r : ℤ) → u.0 r ≡ t.0 r
update_result true t u e r = ground (arith, e)
update_result false t u e r = ap (λ (x : Table). x.0 r) (sym same)
  where
    same : t ≡ u
    same = ground (arith, e)

insert_result :
    (t u : Table) (at rowid : ℤ) (row : Option (List (Value ℕ))) (cells : List (Value ℕ))
    → insert_at t at row cells ≡ some (u, rowid)
    → (at ≡ rowid) × (row ≡ none) × ((r : ℤ) → u.0 r ≡ (if eq_ℤ at r then some cells else t.0 r))
insert_result t u at rowid none cells e =
    let same = unwrapped (((with_row at (some cells) t).0, suc t.1), at) (u, rowid) e in
    (ap (λ x. x.1) same, refl, λ r. ap (λ (x : Table × ℤ). x.0.0 r) (sym same))
insert_result t u at rowid (some row) cells e = absurd (ground (arith, e))

table_laws : StatementLaws table
table_laws = record {
  delete-row_at = λ s t rowid r e. same_row (with_row rowid none s) t rowid e r;
  update-other = λ s t rowid r pairs e apart.
      update_result (is_taken s rowid pairs) (with_row rowid (assigned pairs (s.0 rowid)) s) t e r
      ∙ ap (λ c. if c then assigned pairs (s.0 rowid) else s.0 r) apart;
  update-row_at = λ s t rowid pairs cells e here.
      update_result (is_taken s rowid pairs) (with_row rowid (assigned pairs (s.0 rowid)) s) t e
        rowid
      ∙ ap (λ c. if c then assigned pairs (s.0 rowid) else s.0 rowid)
          ((eq_ℤ_iff rowid rowid).1 refl)
      ∙ ap (assigned pairs) here;
  replace-row_at = λ s t rowid r cells e. same_row (with_row rowid (some cells) s) t rowid e r;
  insert-fresh = λ s t rowid cells e.
      let (same, free, there) = insert_result s t (pos s.1) rowid (s.0 (pos s.1)) cells e in
      ap s.0 (sym same) ∙ free;
  insert-row_at = λ s t rowid r cells e.
      let (same, free, there) = insert_result s t (pos s.1) rowid (s.0 (pos s.1)) cells e in
      there r ∙ ap (λ x. if eq_ℤ x r then some cells else s.0 r) same;
}

abbrev debug : List (Value ℕ) → Text
debug [] = []
debug (integer (pos n) ∷ cells) = n ∷ debug cells
debug (cell ∷ cells) = 0 ∷ debug cells

abbrev pair : ℕ → ℕ → List (Value ℕ)
pair a b = integer (pos a) ∷ integer (pos b) ∷ []

abbrev stored : List (StoredRow ℕ)
stored = (pos 1, pair 5 7) ∷ (pos 2, pair 6 8) ∷ (pos 3, pair 9 9) ∷ []

abbrev before : Table
before = (
  λ r.
      if eq_ℤ r (pos 1)
      then some (pair 5 7)
      else if eq_ℤ r (pos 2)
      then some (pair 6 8)
      else if eq_ℤ r (pos 3)
      then some (pair 9 9)
      else none,
  4,
)

-- The values of the unique column are swapped, a row goes and a row comes.
abbrev new_rows : ShapedRows ℕ
new_rows = record {
  columns = (1 ∷ []) ∷ (2 ∷ []) ∷ [];
  cells = pair 6 7 ∷ pair 4 4 ∷ pair 5 8 ∷ [];
  emitted = true ∷ true ∷ [];
}

abbrev ran : Option (Table × List ℤ)
ran =
    apply_plan stored new_rows.cells (compared new_rows) table
      (plan_rows debug stored new_rows (some (0 ∷ []))) before

abbrev run_of : Option (Table × List ℤ) → Table × List ℤ
run_of none = (before, [])
run_of (some r) = r

swapped : (ran ≡ some (run_of ran)) × ((run_of ran).1 ≡ pos 2 ∷ pos 4 ∷ pos 1 ∷ [])
unfolding apply_plan plan_rows pop_index filter_map
swapped = (refl, refl)

abbrev IsHeld : StoredRow ℕ → Type 0
IsHeld row = (before.0 row.0 ≡ some row.1) × (length row.1 ≡ length new_rows.columns)

IsHeld-as : (x row : StoredRow ℕ) → IsHeld x → some x ≡ some row → IsHeld row
IsHeld-as x row held e = rw (sym (unwrapped x row e)) held

stored_before :
    (a : ℕ) (row : StoredRow ℕ)
    → get_elem? stored a ≡ some row
    → (before.0 row.0 ≡ some row.1) × (length row.1 ≡ length new_rows.columns)
stored_before zero row e = IsHeld-as (pos 1, pair 5 7) row (refl, refl) e
stored_before (suc zero) row e = IsHeld-as (pos 2, pair 6 8) row (refl, refl) e
stored_before (suc (suc zero)) row e = IsHeld-as (pos 3, pair 9 9) row (refl, refl) e
stored_before (suc (suc (suc a))) row e = ground (arith, e)

apply_plan-IsStored_example :
    IsStored debug stored table table_laws
      (compared new_rows)
      (run_of ran).1
      (run_of ran).0
      2
      (pair 5 8)
apply_plan-IsStored_example =
    apply_plan-IsStored debug stored table table_laws new_rows (some (0 ∷ [])) before (run_of ran).0
      (run_of ran).1 2 (pair 5 8) refl stored_before refl refl swapped.0
