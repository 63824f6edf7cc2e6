-- ===== src/Brace/Steps/Bounds.antt =====
-- packages/rust/src/brace.rs: how many terms a range has, and where they lie.
use dirsql.Prelude.{
  ℕ, zero, suc, ◌+◌, ◌-◌, ◌*◌, ◌/◌, ◌^◌, ◌≤◌, ◌<◌, ◌≡◌, max, get_elem?, Bool-cases, ◌∙◌, refl, ap,
  ◌⊎◌, inl, inr, none, some, List, ltb, length, arith,
}
use native.Mathlib.Nat.{div-mul-le_self, mul-le-mul_right}
use dirsql.Prelude.Int.{
  ℤ, pos, negsuc, ◌+ℤ◌, ◌-ℤ◌, ◌*ℤ◌, ◌≤ℤ◌, pos_part, neg_part, +ℤ_parts, -ℤ_parts,
}
use dirsql.Brace.Steps.{abs, signum, most, steps_from, stride_of, steps}

get_elem?-steps_from :
    (count k i : ℕ) (lo signed : ℤ)
    → i < count
    → get_elem? (steps_from count k lo signed) i ≡ some (lo +ℤ pos (k + i) *ℤ signed)
unfolding steps_from
get_elem?-steps_from zero k i lo signed h = absurd (omega arith)
get_elem?-steps_from (suc count) k zero lo signed h =
    ap (λ n. some (lo +ℤ pos n *ℤ signed)) (omega arith)
get_elem?-steps_from (suc count) k (suc i) lo signed h =
    get_elem?-steps_from count (k + 1) i lo signed (omega arith)
    ∙ ap (λ n. some (lo +ℤ pos n *ℤ signed)) (omega arith)

length-steps_from : (count k : ℕ) (lo signed : ℤ) → length (steps_from count k lo signed) ≡ count
unfolding steps_from
length-steps_from zero k lo signed = refl
length-steps_from (suc count) k lo signed = ap suc (length-steps_from count (k + 1) lo signed)

-- Between the ends of a range, whichever is the lower.
abbrev pub Between : ℤ → ℤ → ℤ → Type 0
Between lo hi n = ((lo ≤ℤ n) × (n ≤ℤ hi)) ⊎ ((hi ≤ℤ n) × (n ≤ℤ lo))

-- A step up, and a step down, of at most the distance.
above :
    (lo hi d : ℤ)
    → neg_part d ≡ 0
    → pos_part d ≤ pos_part (hi -ℤ lo)
    → neg_part (hi -ℤ lo) ≡ 0
    → Between lo hi (lo +ℤ d)
above lo hi d e h e2 =
    inl (omega (arith, +ℤ_parts lo d), omega (arith, +ℤ_parts lo d, -ℤ_parts hi lo))

below :
    (lo hi d : ℤ)
    → pos_part d ≡ 0
    → neg_part d ≤ neg_part (hi -ℤ lo)
    → pos_part (hi -ℤ lo) ≡ 0
    → Between lo hi (lo +ℤ d)
below lo hi d e h e2 =
    inr (omega (arith, +ℤ_parts lo d, -ℤ_parts hi lo), omega (arith, +ℤ_parts lo d))

-- `k` strides towards the other end.
abbrev offset : ℕ → ℕ → ℤ → ℤ
offset stride k d = pos k *ℤ (pos stride *ℤ signum d)

offset-zero : (stride k : ℕ) → offset stride k (pos 0) ≡ pos 0
unfolding ◌*ℤ◌
offset-zero stride k = ground arith

offset-up : (stride k n : ℕ) → offset stride k (pos (suc n)) ≡ pos (k * stride)
unfolding ◌*ℤ◌
offset-up stride k n = ground arith

times-down :
    (stride : ℕ)
    → (pos_part (pos stride *ℤ negsuc 0) ≡ 0) × (neg_part (pos stride *ℤ negsuc 0) ≡ stride)
unfolding ◌*ℤ◌
times-down stride = (ground arith, ground arith)

times-down_parts :
    (k : ℕ) (d : ℤ)
    → pos_part d ≡ 0
    → (pos_part (pos k *ℤ d) ≡ 0) × (neg_part (pos k *ℤ d) ≡ k * neg_part d)
unfolding ◌*ℤ◌
times-down_parts k (pos m) e = (ground arith, ground arith)
times-down_parts k (negsuc m) e = (ground arith, ground arith)

-- One term, `k` strides from `lo` where `k` strides fit into the distance.
term-Between :
    (lo hi d : ℤ) (stride k : ℕ)
    → hi -ℤ lo ≡ d
    → k * stride ≤ abs d
    → Between lo hi (lo +ℤ offset stride k d)
term-Between lo hi (pos zero) stride k e h =
    rw (offset-zero stride k) (above lo hi (pos 0) refl (omega arith) (ap neg_part e))
term-Between lo hi (pos (suc n)) stride k e h =
    rw (offset-up stride k n)
      (above lo hi (pos (k * stride)) refl (omega (arith, ap pos_part e, h)) (ap neg_part e))
term-Between lo hi (negsuc n) stride k e h =
    let down = times-down stride in
    let parts = times-down_parts k (pos stride *ℤ negsuc 0) ((down).0) in
    below lo hi (offset stride k (negsuc n)) ((parts).0)
      (omega (arith, ap neg_part e, (parts).1, ap (λ m. k * m) ((down).1), h)) (ap pos_part e)

abs-up : (n : ℤ) (a : ℕ) → pos_part n ≡ neg_part n + a → abs n ≡ a
abs-up (pos m) a h = ground (arith, h)
abs-up (negsuc m) a h = ground (arith, h)

abs-down : (n : ℤ) (a : ℕ) → neg_part n ≡ pos_part n + a → abs n ≡ a
abs-down (pos m) a h = ground (arith, h)
abs-down (negsuc m) a h = ground (arith, h)

-- How far from `lo` that term is.
term-distance :
    (lo d : ℤ) (stride k : ℕ)
    → k * stride ≤ abs d
    → abs ((lo +ℤ offset stride k d) -ℤ lo) ≡ k * stride
term-distance lo (pos zero) stride k h = rw (offset-zero stride k) (
    abs-up ((lo +ℤ pos 0) -ℤ lo) (k * stride)
      (omega (arith, h, +ℤ_parts lo (pos 0), -ℤ_parts (lo +ℤ pos 0) lo)))
term-distance lo (pos (suc n)) stride k h =
    let far = pos (k * stride) in
    rw (offset-up stride k n) (
      abs-up ((lo +ℤ far) -ℤ lo) (k * stride)
        (omega (arith, +ℤ_parts lo far, -ℤ_parts (lo +ℤ far) lo)))
term-distance lo (negsuc n) stride k h =
    let down = times-down stride in
    let parts = times-down_parts k (pos stride *ℤ negsuc 0) ((down).0) in
    let far = offset stride k (negsuc n) in
    abs-down ((lo +ℤ far) -ℤ lo) (k * stride) (
      omega (
        arith,
        (parts).0,
        (parts).1,
        ap (λ m. k * m) ((down).1),
        +ℤ_parts lo far,
        -ℤ_parts (lo +ℤ far) lo,
      ))

-- Up to as many strides as fit into the distance.
room : (a stride k : ℕ) → k ≤ a / stride → k * stride ≤ a
room a stride k h = omega (arith, div-mul-le_self a stride, mul-le-mul_right stride h)

-- A range is refused exactly where more than `i32::MAX - 3` whole strides fit between its ends, a
-- stride of zero counting as one. Any other has one more term than whole strides fit, and its term
-- `k` lies between the ends, `k` strides away from `lo`.
pub steps-Between :
    (lo hi step : ℤ)
    → let whole = abs (hi -ℤ lo) / max (abs step) 1 in
      ((2 ^ 31 - 4 < whole) × (steps lo hi step ≡ none))
      ⊎ ((whole ≤ 2 ^ 31 - 4)
          × (ns : List ℤ) × (steps lo hi step ≡ some ns)
          × (length ns ≡ whole + 1)
          × ((k : ℕ)
              → k ≤ whole
              → (n : ℤ) × (get_elem? ns k ≡ some n)
                × (abs (n -ℤ lo) ≡ k * max (abs step) 1)
                × Between lo hi n))
unfolding steps
steps-Between lo hi step =
    let distance = hi -ℤ lo in
    let stride = stride_of step in
    let whole = abs distance / stride in
    let signed = pos stride *ℤ signum distance in
    elim (Bool-cases (ltb most whole)) [
      | inl many ↦ inl (ground (arith, many), rw many refl)
      | inr few ↦ inr (
        ground (arith, few),
        steps_from (whole + 1) 0 lo signed,
        rw few refl,
        length-steps_from (whole + 1) 0 lo signed,
        λ k h. (
          lo +ℤ offset stride k distance,
          get_elem?-steps_from (whole + 1) 0 k lo signed (omega arith)
              ∙ ap (λ n. some (lo +ℤ pos n *ℤ signed)) (omega arith),
          term-distance lo distance stride k (room (abs distance) stride k h),
          term-Between lo hi distance stride k refl (room (abs distance) stride k h),
        ),
      )
    ]
