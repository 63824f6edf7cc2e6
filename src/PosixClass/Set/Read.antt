-- ===== src/PosixClass/Set/Read.antt =====
-- packages/rust/src/posix_class.rs: the rewritten bracket as globset's documented syntax reads it:
-- a `!` behind `[` negates, the first character of the set is one of its members whatever it is, `]`
-- ends it, and `a-b` is a range, unless nothing but the end follows the `-`.
use mathlib.Core.List.{flat_map}
use dirsql.Prelude.{
  ℕ, ◌≡◌, Bool, true, false, not, ◌||◌, ◌&&◌, Option, none, some, List, [], ◌∷◌, ◌++◌, Text, codes,
  any, ◌==◌, if◌then◌else◌, arith,
}
use dirsql.PosixClass.Classes.{Range}
use dirsql.PosixClass.Set.{present, render_range}

-- The last range ends at `c`.
abbrev pub widen : ℕ → List Range → List Range
widen c [] = (c, c) ∷ []
widen c ((a, b) ∷ ranges) = (a, c) ∷ ranges

abbrev pub end_with : Text → List Range → Option (List Range)
end_with [] ranges = some ranges
end_with (c ∷ s) ranges = none

-- The ranges, the last first, of a set up to its `]`, which ends the text; `waits` is whether a `-`
-- waits for the end of a range.
pub read_items : List Range → Bool → Text → Option (List Range)
read_items ranges waits [] = none
read_items ranges waits (c ∷ s) =
    let dashed = read_items ranges true s in
    let item = read_items (if waits then widen c ranges else (c, c) ∷ ranges) false s in
    if c == b']'
    then end_with s (if waits then (b'-', b'-') ∷ ranges else ranges)
    else if (c == b'-') && not waits
    then dashed
    else item

pub read_set : Text → Option (List Range)
unfolding read_items
read_set [] = none
read_set (c ∷ s) = read_items ((c, c) ∷ []) false s

abbrev pub read_negation : Text → Bool × Text
read_negation [] = (false, [])
read_negation (c ∷ s) = if (c == b'!') || (c == b'^') then (true, s) else (false, c ∷ s)

-- A bracket: whether it is negated, and the text of its set.
abbrev pub read_bracket : Text → Option (Bool × Text)
read_bracket [] = none
read_bracket (c ∷ s) = if c == b'[' then some (read_negation s) else none

-- What is read from `s` on, behind `ranges`, has the members of `extra` beside theirs.
abbrev Reads : Text → (ℕ → Bool) → List Range → Type 0
Reads s extra ranges =
    (read : List Range) × (read_items ranges false s ≡ some read)
    × ((x : ℕ) → present read x ≡ (extra x || present ranges x))

abbrev one_if : Bool → ℕ → Text
one_if b c = if b then c ∷ [] else []

abbrev tail_of : Bool → Bool → Bool → Text
tail_of excl caret dash = one_if excl b'!' ++ (one_if caret b'^' ++ (one_if dash b'-' ++ codes "]"))

abbrev tail_members : Bool → Bool → Bool → ℕ → Bool
tail_members excl caret dash x =
    (excl && (x == b'!')) || ((caret && (x == b'^')) || (dash && (x == b'-')))

-- A set that `]` opens or a plain range does.
module _ (excl caret dash : Bool) where
  abbrev set_text : Bool → List Range → Text
  set_text close plain =
      one_if close b']' ++ (flat_map render_range plain ++ tail_of excl caret dash)

gather :
    (p q has b0 b1 b2 b3 e0 e1 e2 e3 : Bool)
    → (b0 && e0) ≡ (q && e0)
    → (b1 && e1) ≡ (q && e1)
    → (b2 && e2) ≡ (q && e2)
    → (b3 && e3) ≡ (q && e3)
    → q ≡ (has && (e0 || (e3 || (e1 || (e2 || false)))))
    → ((b0 && e0) || (p || ((b1 && e1) || ((b2 && e2) || (b3 && e3))))) ≡ (p || q)
gather p q has b0 b1 b2 b3 e0 e1 e2 e3 h0 h1 h2 h3 h = rw (h0, h1, h2, h3) (ground (arith, h))

abbrev set_of : List ℕ → List Range → Text
set_of specials plain =
    let has = λ (c : ℕ). any (λ d. d == c) specials in
    set_text (has b'!') (has b'^') (has b'-') (has b']') plain
