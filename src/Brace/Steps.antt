-- ===== src/Brace/Steps.antt =====
-- packages/rust/src/brace.rs (`steps`): the terms of a range. The arithmetic is that of `i128` on
-- values of `i64`, where nothing overflows, so it is that of the integers.
pub mod Bounds
use dirsql.Prelude.{
  ℕ, zero, suc, ◌+◌, ◌-◌, ◌*◌, ◌/◌, ◌^◌, max, Bool, true, false, Option, none, some, List, [], ◌∷◌,
  ltb, ◌==◌, if◌then◌else◌,
}
use dirsql.Prelude.Int.{ℤ, pos, negsuc, ◌+ℤ◌, ◌-ℤ◌, ◌*ℤ◌, pos_part, neg_part}

-- `i128::abs`
abbrev pub abs : ℤ → ℕ
abs n = pos_part n + neg_part n

-- `i128::signum`
abbrev pub signum : ℤ → ℤ
signum (pos zero) = pos 0
signum (pos (suc n)) = pos 1
signum (negsuc n) = negsuc 0

-- `i32::MAX - 3`
abbrev pub most : ℕ
most = 2 ^ 31 - 4

-- `(k..k + count).map(|k| lo + k * signed)`
pub steps_from : ℕ → ℕ → ℤ → ℤ → List ℤ
steps_from zero k lo signed = []
steps_from (suc count) k lo signed = (lo +ℤ pos k *ℤ signed) ∷ steps_from count (k + 1) lo signed

abbrev pub stride_of : ℤ → ℕ
stride_of step = max (abs step) 1

unfoldable pub steps : ℤ → ℤ → ℤ → Option (List ℤ)
unfolding steps_from
steps lo hi step =
    let stride = stride_of step in
    let distance = hi -ℤ lo in
    if ltb most (abs distance / stride)
    then none
    else some (steps_from (abs distance / stride + 1) 0 lo (pos stride *ℤ signum distance))
