-- ===== src/Reconcile/Apply/Distinct.antt =====
-- packages/rust/src/db.rs (`reconcile_rows`): stored rows with distinct rowids.
use dirsql.Prelude.{
  ℕ, zero, suc, ◌<◌, ◌≡◌, refl, ◌∙◌, Bool, true, false, not, ◌&&◌, some, List, [], ◌∷◌, get_elem?,
  length, ◌==◌, arith,
}
use dirsql.Prelude.Int.{ℤ, pos, negsuc, eq_ℤ}
use dirsql.Value.{Value}
use dirsql.Reconcile.{StoredRow, stored_at, cells_at}

abbrev pub no_rowid : {F : Type 0} → ℤ → List (StoredRow F) → Bool
no_rowid r [] = true
no_rowid r ((rowid, cells) ∷ rows) = not (eq_ℤ rowid r) && no_rowid r rows

-- No two stored rows have the same rowid.
abbrev pub distinct_rowids : {F : Type 0} → List (StoredRow F) → Bool
distinct_rowids [] = true
distinct_rowids ((rowid, cells) ∷ rows) = no_rowid rowid rows && distinct_rowids rows

eq_ℤ_comm : (a b : ℤ) → eq_ℤ a b ≡ eq_ℤ b a
eq_ℤ_comm (pos a) (pos b) = ground arith
eq_ℤ_comm (pos a) (negsuc b) = refl
eq_ℤ_comm (negsuc a) (pos b) = refl
eq_ℤ_comm (negsuc a) (negsuc b) = ground arith

module _ {F : Type 0} where
  no_rowid-at :
      (r : ℤ) (rows : List (StoredRow F)) (b : ℕ)
      → no_rowid r rows ≡ true
      → b < length rows
      → eq_ℤ (stored_at rows b).0 r ≡ false
  unfolding stored_at
  no_rowid-at r [] b h low = absurd (omega (arith, low))
  no_rowid-at r (row ∷ rows) zero h low = ground (arith, h)
  no_rowid-at r (row ∷ rows) (suc b) h low =
      no_rowid-at r rows b (ground (arith, h)) (omega (arith, low))

  pub distinct-apart :
      (rows : List (StoredRow F)) (a b : ℕ)
      → distinct_rowids rows ≡ true
      → a < length rows
      → b < length rows
      → (b == a) ≡ false
      → eq_ℤ (stored_at rows b).0 (stored_at rows a).0 ≡ false
  unfolding stored_at
  distinct-apart [] a b h la lb apart = absurd (omega (arith, la))
  distinct-apart (row ∷ rows) zero zero h la lb apart = ground (arith, apart)
  distinct-apart (row ∷ rows) zero (suc b) h la lb apart =
      no_rowid-at row.0 rows b (ground (arith, h)) (omega (arith, lb))
  distinct-apart (row ∷ rows) (suc a) zero h la lb apart =
      eq_ℤ_comm row.0 (stored_at rows a).0
      ∙ no_rowid-at row.0 rows a (ground (arith, h)) (omega (arith, la))
  distinct-apart (row ∷ rows) (suc a) (suc b) h la lb apart =
      distinct-apart rows a b (ground (arith, h)) (omega (arith, la)) (omega (arith, lb))
        (ground (arith, apart))

  pub stored_at-get :
      (rows : List (StoredRow F)) (a : ℕ) (row : StoredRow F)
      → get_elem? rows a ≡ some row
      → stored_at rows a ≡ row
  unfolding stored_at
  stored_at-get [] a row e = ground (arith, e)
  stored_at-get (r ∷ rows) zero row e = ground (arith, e)
  stored_at-get (r ∷ rows) (suc a) row e = stored_at-get rows a row e

  pub cells_at-get :
      (rows : List (List (Value F))) (i : ℕ) (cells : List (Value F))
      → get_elem? rows i ≡ some cells
      → cells_at rows i ≡ cells
  unfolding cells_at
  cells_at-get [] i cells e = ground (arith, e)
  cells_at-get (r ∷ rows) zero cells e = ground (arith, e)
  cells_at-get (r ∷ rows) (suc i) cells e = cells_at-get rows i cells e
