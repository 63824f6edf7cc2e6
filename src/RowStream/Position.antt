-- ===== src/RowStream/Position.antt =====
-- packages/rust/src/row_stream.rs: a settled stream reads as the rows of its chunks in order.
use mathlib.Core.List.{flatten}
use dirsql.Prelude.{
  ℕ, ◌+◌, ◌-◌, ◌≤◌, ◌≡◌, refl, ap, sym, ◌∙◌, inl, inr, List, [], ◌∷◌, ◌++◌, true, false, leb,
  length, length-append, get_elem?, get_elem?-append_left, get_elem?-append_right, append-nil,
  append_assoc, all, Bool, arith, Bool-cases,
}
use dirsql.RowStream.{Streamed, new, starts_from, push, stream_len, partition_point, get_at, get}

regroup : (k l p : ℕ) → p - (k + l) ≡ p - k - l
regroup k l p = omega arith

module _ {R : Type 0} where
  -- Read from a base `k`, as the recursion over the chunks meets it.
  get_at-starts_from :
      (chunks : List (List R)) (k p : ℕ)
      → k ≤ p
      → get_at (partition_point p (starts_from k chunks)) chunks (starts_from k chunks) p
        ≡ get_elem? (flatten chunks) (p - k)
  unfolding get_at partition_point starts_from flatten
  get_at-starts_from [] k p h = refl
  get_at-starts_from (chunk ∷ []) k p h = rw append-nil (ground arith)
  get_at-starts_from (chunk ∷ next ∷ chunks) k p h = elim (Bool-cases (leb (k + length chunk) p)) [
    | inl e ↦ ground (
      arith,
      get_at-starts_from (next ∷ chunks) (k + length chunk) p,
      get_elem?-append_right chunk (next ++ flatten chunks) (p - k),
      ap (get_elem? (next ++ flatten chunks)) (regroup k (length chunk) p),
    )
    | inr e ↦ ground (arith, get_elem?-append_left chunk (next ++ flatten chunks) (p - k))
  ]

  -- The row at a position of a settled stream is the row at that position of all the chunks joined
  -- in order, and past the last row there is none.
  pub get-new :
      (chunks : List (List R)) (position : ℕ)
      → get (new chunks) position ≡ get_elem? (flatten chunks) position
  unfolding get new
  get-new chunks position =
      get_at-starts_from chunks 0 position (omega arith)
      ∙ ap (get_elem? (flatten chunks)) (omega arith)

flatten-snoc :
    {R : Type 0} (chunks : List (List R)) (rs : List R)
    → flatten (chunks ++ rs ∷ []) ≡ flatten chunks ++ rs
unfolding flatten
flatten-snoc [] rs = append-nil rs
flatten-snoc (c ∷ chunks) rs =
    ap (λ r. c ++ r) (flatten-snoc chunks rs) ∙ sym (append_assoc c (flatten chunks) rs)

stream_len-eq-length :
    {R : Type 0} (chunks : List (List R)) → stream_len chunks ≡ length (flatten chunks)
unfolding stream_len flatten
stream_len-eq-length [] = refl
stream_len-eq-length (c ∷ chunks) =
    omega (arith, stream_len-eq-length chunks, length-append c (flatten chunks))

abbrev pub is_full : {R : Type 0} → List R → Bool
is_full [] = false
is_full (r ∷ rs) = true

all-snoc :
    {R : Type 0} (chunks : List (List R)) (r : R) (rs : List R)
    → all is_full (chunks ++ (r ∷ rs) ∷ []) ≡ all is_full chunks
all-snoc [] r rs = refl
all-snoc ([] ∷ chunks) r rs = refl
all-snoc ((c ∷ cs) ∷ chunks) r rs = all-snoc chunks r rs

-- Pushing a chunk adds its rows, in order, behind those that the stream holds; `len` counts the
-- rows of the joined chunks; and the stream has an empty chunk afterwards only if it had one before.
pub push-Stores :
    {R : Type 0} (rs : List R) (s : Streamed R)
    → (flatten (push rs s).chunks ≡ flatten s.chunks ++ rs)
      × (stream_len (push rs s).chunks ≡ stream_len s.chunks + length rs)
      × (all is_full (push rs s).chunks ≡ all is_full s.chunks)
unfolding push
push-Stores [] s = (sym (append-nil (flatten s.chunks)), omega arith, refl)
push-Stores (r ∷ rs) s = (
  flatten-snoc s.chunks (r ∷ rs),
  omega (
    arith,
    stream_len-eq-length s.chunks,
    stream_len-eq-length (s.chunks ++ (r ∷ rs) ∷ []),
    ap length (flatten-snoc s.chunks (r ∷ rs)),
    length-append (flatten s.chunks) (r ∷ rs),
  ),
  all-snoc s.chunks r rs,
)
