-- ===== src/Differ/Pool.antt =====
-- The pool of `diff_unordered`: which rows its three loops leave without a counterpart.
use mathlib.Core.Option
use dirsql.Prelude.{
  ℕ, zero, suc, ◌+◌, ◌-◌, ◌≤◌, min, ◌≡◌, refl, ◌∙◌, Bool, true, false, Option, none, some, List, [],
  ◌∷◌, Text, text_eq, text_eq_iff, text_eq_refl, if◌then◌else◌, arith,
}
use dirsql.Value.{Row}
use dirsql.Differ.{row_key, Counts, count_of, increment, decrement, tally, match_new, match_old}
use dirsql.Differ.Bag.{count}

-- The number that the pool holds for a key, 0 where it holds none.
abbrev pub left_in : Option ℕ → ℕ
left_in none = 0
left_in (some n) = n

abbrev pub is_some : Option ℕ → Bool
is_some none = false
is_some (some n) = true

data Held (o : Option ℕ) : Type 0 where
  absent : o ≡ none → Held o
  used_up : o ≡ some 0 → Held o
  more : (n : ℕ) → o ≡ some (suc n) → Held o

Held-cases : (o : Option ℕ) → Held o
Held-cases none = absent refl
Held-cases (some zero) = used_up refl
Held-cases (some (suc n)) = more n refl

count_of-increment :
    (k j : Text) (pool : Counts)
    → count_of j (increment k pool)
      ≡ (if text_eq k j then some (left_in (count_of k pool) + 1) else count_of j pool)
unfolding count_of increment
count_of-increment k j [] = ground arith
count_of-increment k j ((i, n) ∷ pool) =
    ground (arith, count_of-increment k j pool, text_eq_iff i k, text_eq_iff i j, text_eq_iff k j)

count_of-decrement :
    (k j : Text) (pool : Counts)
    → count_of j (decrement k pool)
      ≡ (if text_eq k j then Option.map (λ n. n - 1) (count_of k pool) else count_of j pool)
unfolding count_of decrement
count_of-decrement k j [] = ground arith
count_of-decrement k j ((i, n) ∷ pool) =
    ground (arith, count_of-decrement k j pool, text_eq_iff i k, text_eq_iff i j, text_eq_iff k j)

module _ {F : Type 0} (debug : Row F → Text) where
  -- The first loop counts the rows of each key, and keys every row.
  pub tally-Counts :
      (pool : Counts) (rows : List (Row F)) (k : Text)
      → left_in (count_of k (tally debug pool rows))
        ≡ left_in (count_of k pool) + count debug k rows
  unfolding tally
  tally-Counts pool [] k = omega arith
  tally-Counts pool (row ∷ rows) k = ground (
    arith,
    tally-Counts (increment (row_key debug row) pool) rows k,
    count_of-increment (row_key debug row) k pool,
    text_eq_iff (row_key debug row) k,
  )

  -- The second loop strikes out each new row that the pool still holds, and keeps the others.
  pub match_new-Counts :
      (pool : Counts) (rows : List (Row F)) (k : Text)
      → (count debug k (match_new debug pool rows).1
          ≡ count debug k rows - left_in (count_of k pool))
        × (left_in (count_of k (match_new debug pool rows).0)
            ≡ left_in (count_of k pool) - count debug k rows)
  unfolding match_new
  match_new-Counts pool [] k = (omega arith, omega arith)
  match_new-Counts pool (row ∷ rows) k = ground (
    arith,
    match_new-Counts pool rows k,
    match_new-Counts (decrement (row_key debug row) pool) rows k,
    count_of-decrement (row_key debug row) k pool,
    text_eq_iff (row_key debug row) k,
  )

  -- No key leaves the pool.
  match_new-Keys :
      (pool : Counts) (rows : List (Row F)) (k : Text)
      → is_some (count_of k (match_new debug pool rows).0) ≡ is_some (count_of k pool)
  unfolding match_new
  match_new-Keys pool [] k = refl
  match_new-Keys pool (row ∷ rows) k = ground (
    arith,
    match_new-Keys pool rows k,
    match_new-Keys (decrement (row_key debug row) pool) rows k,
    count_of-decrement (row_key debug row) k pool,
    text_eq_iff (row_key debug row) k,
  )

  -- Every row has a key in the pool.
  abbrev pub Keyed : Counts → List (Row F) → Type 0
  Keyed pool [] = Unit
  Keyed pool (row ∷ rows) = (is_some (count_of (row_key debug row) pool) ≡ true) × Keyed pool rows

  Keyed-of :
      (p q : Counts) (rows : List (Row F))
      → ((k : Text) → is_some (count_of k p) ≡ true → is_some (count_of k q) ≡ true)
      → Keyed p rows
      → Keyed q rows
  Keyed-of p q [] h keyed = tt
  Keyed-of p q (row ∷ rows) h keyed = (h (row_key debug row) keyed.0, Keyed-of p q rows h keyed.1)

  decrement-Keyed :
      (k : Text) (pool : Counts) (rows : List (Row F))
      → Keyed pool rows
      → Keyed (decrement k pool) rows
  decrement-Keyed k pool rows =
      Keyed-of pool (decrement k pool) rows
        λ j h. ground (arith, count_of-decrement k j pool, text_eq_iff k j)

  Keyed-rows :
      (pool : Counts) (rows : List (Row F))
      → ((k : Text) → count debug k rows ≤ left_in (count_of k pool))
      → Keyed pool rows
  Keyed-rows pool [] h = tt
  Keyed-rows pool (row ∷ rows) h = (
    ground (arith, h (row_key debug row), text_eq_refl (row_key debug row)),
    Keyed-rows pool rows (λ k. omega (arith, h k)),
  )

  -- What the second loop leaves still keys every row that the first loop counted.
  pub tally-Keyed :
      (old new : List (Row F)) → Keyed (match_new debug (tally debug [] old) new).0 old
  unfolding count_of
  tally-Keyed old new =
      Keyed-of (tally debug [] old) (match_new debug (tally debug [] old) new).0 old
        (λ k h. match_new-Keys (tally debug [] old) new k ∙ h)
        (Keyed-rows (tally debug [] old) old (λ k. omega (arith, tally-Counts [] old k)))

  -- One round of the third loop, by what the pool holds for the row.
  match_old-skip :
      (pool : Counts) (row : Row F) (rows : List (Row F))
      → count_of (row_key debug row) pool ≡ some 0
      → match_old debug pool (row ∷ rows) ≡ match_old debug pool rows
  unfolding match_old
  match_old-skip pool row rows e = rw (e, match_old)

  match_old-take :
      (pool : Counts) (row : Row F) (rows : List (Row F)) (n : ℕ) {kept : List (Row F)}
      → count_of (row_key debug row) pool ≡ some (suc n)
      → match_old debug (decrement (row_key debug row) pool) rows ≡ some kept
      → match_old debug pool (row ∷ rows) ≡ some (row ∷ kept)
  unfolding match_old
  match_old-take pool row rows n e h = rw (e, match_old, h)

  -- The third loop finds every key, and keeps as many rows of each as the pool still holds.
  pub match_old-Counts :
      (pool : Counts) (rows : List (Row F))
      → Keyed pool rows
      → (kept : List (Row F)) × (match_old debug pool rows ≡ some kept)
        × ((k : Text) → count debug k kept ≡ min (count debug k rows) (left_in (count_of k pool)))
  unfolding match_old
  match_old-Counts pool [] keyed = ([], refl, λ k. omega arith)
  match_old-Counts pool (row ∷ rows) keyed = elim (Held-cases (count_of (row_key debug row) pool)) [
    | absent e ↦ absurd (ground (arith, keyed.0))
    | used_up e ↦
        let (kept, h, c) = match_old-Counts pool rows keyed.1 in
        (
          kept,
          match_old-skip pool row rows e ∙ h,
          λ k. ground (arith, c k, text_eq_iff (row_key debug row) k),
        )
    | more n e ↦
        let (kept, h, c) =
          match_old-Counts (decrement (row_key debug row) pool) rows
            (decrement-Keyed (row_key debug row) pool rows keyed.1) in
        (
          row ∷ kept,
          match_old-take pool row rows n e h,
          λ k. ground (
            arith,
            c k,
            text_eq_iff (row_key debug row) k,
            count_of-decrement (row_key debug row) k pool,
          ),
        )
  ]
