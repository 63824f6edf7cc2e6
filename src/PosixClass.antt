-- ===== src/PosixClass.antt =====
-- packages/rust/src/posix_class.rs: brackets with POSIX classes, collating symbols and equivalence
-- classes, rewritten for globset. A cursor is the text from it on.
pub mod Classes
pub mod Set
pub mod Cursor
use mathlib.Core.Option
use mathlib.Core.List.{flat_map}
use dirsql.Prelude.{
  ℕ, zero, suc, ◌+◌, ◌-◌, min, max, Bool, true, false, not, ◌||◌, ◌&&◌, Option, none, some, List,
  [], ◌∷◌, ◌++◌, map, Text, codes, text_eq, any, length, take, drop, leb, ltb, ◌==◌, get_elem?,
  if◌then◌else◌,
}
use Classes.{Range, class_at, equivalence_at, symbol_at, class_ranges}
use Set.{insert_range, extend_ranges, render}

-- The variables of the loop of `bracket`.
pub record Scan : Type 0 where
  pub ranges : List Range
  pub rewrite : Bool
  pub range_into_class : Bool

-- The start of a range or a single member: a collating symbol, or the character as it stands.
or_char : ℕ → Text → Option (Option ℕ × Text) → Option ℕ × Text
or_char c s none = (some c, s)
or_char c s (some symbol) = symbol

is_some : {A : Type 0} → Option A → Bool
is_some none = false
is_some (some a) = true

add_range : Option ℕ → Option ℕ → List Range → List Range
unfolding insert_range
add_range (some a) (some b) ranges = if leb a b then insert_range (a, b) ranges else ranges
add_range _ _ ranges = ranges

add_member : Option ℕ → List Range → List Range
unfolding insert_range
add_member none ranges = ranges
add_member (some c) ranges = insert_range (c, c) ranges

-- The range from `start` to what stands at `end ∷ s`.
to_end : Option ℕ → ℕ → Text → Scan → Scan × Text
unfolding class_at symbol_at or_char is_some add_range
to_end start end s st = elim (class_at (end ∷ s)) [
  | some (name, next) ↦ (record st { rewrite = true; range_into_class = true }, next)
  | none ↦
      let symbol = symbol_at (end ∷ s) in
      let last = or_char end s symbol in
      (
        record st {
          ranges = add_range start last.0 st.ranges;
          rewrite = st.rewrite || is_some symbol;
        },
        last.1,
      )
]

-- The last `match` of a round, at the cursor behind the start.
pub range_or_member : Option ℕ → Text → Scan → Scan × Text
unfolding to_end add_member
range_or_member start (dash ∷ end ∷ s) st =
    if (dash == b'-') && not (end == b']')
    then to_end start end s st
    else (record st { ranges = add_member start st.ranges }, dash ∷ end ∷ s)
range_or_member start after st = (record st { ranges = add_member start st.ranges }, after)

-- One round of the loop at a character that does not close the bracket.
pub round : ℕ → Text → Scan → Scan × Text
unfolding range_or_member class_at equivalence_at symbol_at class_ranges extend_ranges insert_range
    or_char is_some
round c s st = elim (class_at (c ∷ s)) [
  | some (name, next) ↦
      (record st { ranges = extend_ranges (class_ranges name) st.ranges; rewrite = true }, next)
  | none ↦ elim (equivalence_at (c ∷ s)) [
    | some (member, next) ↦
        (record st { ranges = insert_range (member, member) st.ranges; rewrite = true }, next)
    | none ↦
        let symbol = symbol_at (c ∷ s) in
        let start = or_char c s symbol in
        range_or_member start.0 start.1 (record st { rewrite = st.rewrite || is_some symbol })
  ]
]

-- The loop; `first` is whether the cursor is at `body_start`. `none` at the end of the text, and
-- where the fuel runs out.
pub members_from : ℕ → Bool → Text → Scan → Option (Scan × Text)
unfolding round
members_from fuel first [] st = none
members_from zero first (c ∷ s) st = none
members_from (suc fuel) first (c ∷ s) st =
    if (c == b']') && not first
    then some (st, s)
    else let r = round c s st in members_from fuel false r.1 r.0

pub rewritten : Bool → Scan → Option Text
unfolding render
rewritten negated st =
    if not st.rewrite
    then none
    else if st.range_into_class
    then some (b'[' ∷ 0 ∷ b']' ∷ [])
    else some (render negated st.ranges)

abbrev pub empty_scan : Scan
empty_scan = record { ranges = []; rewrite = false; range_into_class = false }

body : Bool → Text → Option (Option Text × Text)
unfolding members_from rewritten
body negated s =
    Option.map (λ r. (rewritten negated r.0, r.1)) (members_from (length s) true s empty_scan)

-- `bracket`, at the cursor behind its `[`.
pub bracket : Text → Option (Option Text × Text)
unfolding body
bracket [] = none
bracket (c ∷ s) = if (c == b'!') || (c == b'^') then body true s else body false (c ∷ s)

-- What one round of the outer loop writes at `c ∷ s`, and how much of `s` it passes over.
at_bracket : Text → Option (Option Text × Text) → Text × ℕ
at_bracket s none = (b'[' ∷ [], 0)
at_bracket s (some (some text, next)) = (text, length s - length next)
at_bracket s (some (none, next)) = let n = length s - length next in (b'[' ∷ take n s, n)

pub expand_one : ℕ → Text → Text × ℕ
unfolding bracket at_bracket
expand_one c s =
    if c == b'\\'
    then (c ∷ take 1 s, 1)
    else if c == b'['
    then at_bracket s (bracket s)
    else (c ∷ [], 0)

-- The outer loop, which passes over `skip` characters first.
pub expand_from : ℕ → Text → Text
unfolding expand_one
expand_from skip [] = []
expand_from (suc skip) (c ∷ s) = expand_from skip s
expand_from zero (c ∷ s) = let r = expand_one c s in r.0 ++ expand_from r.1 s

pub expand_posix_classes : Text → Text
unfolding expand_from
expand_posix_classes pattern = expand_from 0 pattern
