-- ===== src/Brace/Escape.antt =====
-- packages/rust/src/brace.rs (`escape_braces`, `class_end`): the braces that bash leaves as text,
-- escaped. A position is the text behind it.
pub mod Closes
pub mod Plain
use mathlib.Core.Option
use dirsql.Prelude.{
  ℕ, zero, suc, ◌||◌, Option, none, some, [], ◌∷◌, ◌++◌, Text, codes, any, take, ◌==◌,
  if◌then◌else◌,
}

-- How many characters there are up to the first `]`, and with it.
to_close : Text → Option ℕ
to_close [] = none
to_close (c ∷ s) = let rest = Option.map suc (to_close s) in if c == b']' then some 1 else rest

-- A `]` that comes first is a member.
after_member : Text → Option ℕ
unfolding to_close
after_member [] = none
after_member (c ∷ s) = if c == b']' then Option.map suc (to_close s) else to_close (c ∷ s)

-- `class_end`, as the number of characters from the one behind the `[` to the `]`.
pub class_end : Text → Option ℕ
unfolding after_member
class_end [] = none
class_end (c ∷ s) =
    if (c == b'!') || (c == b'^') then Option.map suc (after_member s) else after_member (c ∷ s)

-- What an escaped character becomes.
pub escaped_pair : ℕ → Text
escaped_pair next =
    if next == b'{'
    then codes "[{]"
    else if next == b'}'
    then codes "[}]"
    else if next == b','
    then codes ","
    else b'\\' ∷ next ∷ []

-- The class of `n` characters behind the `[`, unless it would span a `/`.
pub copy_class : Text → Option ℕ → Text × ℕ
copy_class s none = (codes "[[]", 0)
copy_class s (some n) =
    if any (λ c. c == b'/') (take n s) then (codes "[[]", 0) else (b'[' ∷ take n s, n)

-- One round of the loop at `c ∷ s`: what it writes, and how many characters of `s` it passes over.
pub escape_one : ℕ → Text → Text × ℕ
unfolding escaped_pair copy_class class_end
escape_one c [] =
    if c == b'['
    then (codes "[[]", 0)
    else if c == b'{'
    then (codes "[{]", 0)
    else if c == b'}'
    then (codes "[}]", 0)
    else (c ∷ [], 0)
escape_one c (next ∷ s) =
    if c == b'\\'
    then (escaped_pair next, 1)
    else if c == b'['
    then copy_class (next ∷ s) (class_end (next ∷ s))
    else if c == b'{'
    then (codes "[{]", 0)
    else if c == b'}'
    then (codes "[}]", 0)
    else (c ∷ [], 0)

-- The loop, which passes over `skip` characters first.
pub escape_from : ℕ → Text → Text
unfolding escape_one
escape_from skip [] = []
escape_from (suc skip) (c ∷ s) = escape_from skip s
escape_from zero (c ∷ s) = let r = escape_one c s in r.0 ++ escape_from r.1 s

unfoldable pub escape_braces : Text → Text
unfolding escape_from
escape_braces word = escape_from 0 word
