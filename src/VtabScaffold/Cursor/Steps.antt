-- ===== src/VtabScaffold/Cursor/Steps.antt =====
-- packages/rust/src/vtab_scaffold.rs (`Reading`): a read chunk by chunk meets each row at its position.
use mathlib.Core.List.{flatten}
use dirsql.Prelude.{
  ℕ, zero, suc, ◌+◌, ◌-◌, ◌≤◌, ◌<◌, ◌≡◌, refl, sym, ap, ◌∙◌, true, Option, none, some, List, [],
  ◌∷◌, length, all, get_elem?, get_elem?-append_left, get_elem?-append_right, leb, arith,
  Bool-cases, inl, inr,
}
use dirsql.RowStream.Position.{is_full}
use dirsql.VtabScaffold.Cursor.{Reading, reading_from, row_of, reading_row, advance, advanced}

module _ {R : Type 0} where
  -- The position of the first row of chunk `n`.
  abbrev pub first_of : ℕ → List (List R) → ℕ
  first_of zero chunks = 0
  first_of (suc n) [] = 0
  first_of (suc n) (chunk ∷ chunks) = length chunk + first_of n chunks

  -- A position is not past the chunk, where there is one.
  abbrev pub Inside : Option (List R) → ℕ → ℕ → Type 0
  Inside none start step = Unit
  Inside (some chunk) start step = step < start + length chunk

  -- The reading has got to `step`.
  abbrev pub IsAt : List (List R) → ℕ → Reading R → Type 0
  IsAt chunks step r =
      (n : ℕ) × (r ≡ reading_from chunks n (first_of n chunks))
      × (first_of n chunks ≤ step)
      × Inside (get_elem? chunks n) (first_of n chunks) step

  row_of-shift :
      (o : Option (List R)) (k start step : ℕ)
      → k + start ≤ step
      → row_of o (k + start) step ≡ row_of o start (step - k)
  unfolding row_of
  row_of-shift none k start step h = refl
  row_of-shift (some chunk) k start step h =
      ground (arith, h, ap (get_elem? chunk) (regroup k start step))
    where
      regroup : (k start step : ℕ) → step - (k + start) ≡ step - k - start
      regroup k start step = omega arith

  Inside-shift :
      (o : Option (List R)) (k start step : ℕ)
      → k + start ≤ step
      → Inside o (k + start) step
      → Inside o start (step - k)
  Inside-shift none k start step h g = tt
  Inside-shift (some chunk) k start step h g = omega (arith, h, g)

  row_of-flatten :
      (chunks : List (List R)) (n step : ℕ)
      → first_of n chunks ≤ step
      → Inside (get_elem? chunks n) (first_of n chunks) step
      → row_of (get_elem? chunks n) (first_of n chunks) step ≡ get_elem? (flatten chunks) step
  unfolding flatten row_of
  row_of-flatten [] n step h g = refl
  row_of-flatten (chunk ∷ chunks) zero step h g =
      ground (arith, get_elem?-append_left chunk (flatten chunks) step (omega arith))
  row_of-flatten (chunk ∷ chunks) (suc n) step h g =
      row_of-shift (get_elem? chunks n) (length chunk) (first_of n chunks) step h
      ∙ row_of-flatten chunks n (step - length chunk) (omega arith)
          (Inside-shift (get_elem? chunks n) (length chunk) (first_of n chunks) step h g)
      ∙ sym (get_elem?-append_right chunk (flatten chunks) step (omega arith))

  first_of-next :
      (chunks : List (List R)) (n : ℕ) (chunk : List R)
      → get_elem? chunks n ≡ some chunk
      → first_of (suc n) chunks ≡ first_of n chunks + length chunk
  first_of-next [] n chunk e = ground (arith, e)
  first_of-next (c ∷ chunks) zero chunk e = ground (arith, e)
  first_of-next (c ∷ chunks) (suc n) chunk e = omega (arith, first_of-next chunks n chunk e)

  pub full-get :
      (chunks : List (List R)) (n : ℕ)
      → all is_full chunks ≡ true
      → (step : ℕ) → Inside (get_elem? chunks n) step step
  full-get [] n h step = tt
  full-get ([] ∷ chunks) n h step = ground (arith, h)
  full-get ((r ∷ rs) ∷ chunks) zero h step = omega arith
  full-get ((r ∷ rs) ∷ chunks) (suc n) h step = full-get chunks n h step

  pub reading_row-flatten :
      (chunks : List (List R)) (r : Reading R) (step : ℕ)
      → IsAt chunks step r
      → reading_row r step ≡ get_elem? (flatten chunks) step
  unfolding reading_row reading_from
  reading_row-flatten chunks r step (n, e, h, g) =
      ap (λ s. row_of s.chunk s.start step) e ∙ row_of-flatten chunks n step h g

  Inside-start :
      (o : Option (List R)) (start step : ℕ)
      → start ≡ step
      → Inside o step step
      → Inside o start step
  Inside-start none start step e g = tt
  Inside-start (some chunk) start step e g = omega (arith, e, g)

  advance-IsAt :
      (chunks : List (List R)) (n step : ℕ) (o : Option (List R))
      → get_elem? chunks n ≡ o
      → all is_full chunks ≡ true
      → first_of n chunks ≤ step
      → Inside o (first_of n chunks) step
      → IsAt chunks
          (step + 1)
          (advance o chunks (step + 1) (reading_from chunks n (first_of n chunks)))
  unfolding advance reading_from
  advance-IsAt chunks n step none e full h g = (n, refl, omega arith, rw e tt)
  advance-IsAt chunks n step (some chunk) e full h g =
      elim (Bool-cases (leb (first_of n chunks + length chunk) (step + 1))) [
        | inl past ↦
            let here : first_of n chunks + length chunk ≡ step + 1 = ground (arith, past, g) in
            let next = first_of-next chunks n chunk e in
            rw past (
              suc n,
              ap (λ m. reading_from chunks m (first_of n chunks + length chunk)) (omega arith)
                  ∙ ap (reading_from chunks (suc n)) (sym next),
              omega (arith, next, here),
              Inside-start (get_elem? chunks (suc n)) (first_of (suc n) chunks) (step + 1)
                  (omega (arith, next, here)) (full-get chunks (suc n) full (step + 1)),
            )
        | inr within ↦ rw within (n, refl, omega arith, rw e (ground (arith, within)))
      ]

  pub advanced-IsAt :
      (chunks : List (List R)) (r : Reading R) (step : ℕ)
      → all is_full chunks ≡ true
      → IsAt chunks step r
      → IsAt chunks (step + 1) (advanced r chunks (step + 1))
  unfolding advanced reading_from
  advanced-IsAt chunks r step full (n, e, h, g) =
      rw e (advance-IsAt chunks n step (get_elem? chunks n) refl full h g)
