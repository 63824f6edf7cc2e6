-- ===== src/SqlLiteral.antt =====
-- packages/rust/src/sql_literal.rs: the encoding of a path-table's arguments.
pub mod RoundTrip
use mathlib.Core.List.{reverse, flat_map}
use dirsql.Prelude.{
  ℕ, ◌-◌, Bool, true, false, ◌&&◌, ◌||◌, Option, none, some, List, [], ◌∷◌, ◌++◌, Text, leb, ◌==◌,
  length, take, drop, get_last?, is_whitespace, if◌then◌else◌,
}

abbrev pub single_quote : ℕ
single_quote = 39

abbrev pub double_quote : ℕ
double_quote = 34

-- `s.replace(q, qq)` for a character `q`.
unfoldable pub double : ℕ → Text → Text
double q [] = []
double q (c ∷ s) = if c == q then q ∷ q ∷ double q s else c ∷ double q s

unfoldable pub quote_literal : Text → Text
unfolding double
quote_literal s = single_quote ∷ double single_quote s ++ single_quote ∷ []

unfoldable pub quote_identifier : Text → Text
unfolding double
quote_identifier s = double_quote ∷ double double_quote s ++ double_quote ∷ []

-- `str::trim_start`; `str::trim` trims both ends.
pub trim_start : Text → Text
trim_start [] = []
trim_start (c ∷ s) = if is_whitespace c then trim_start s else c ∷ s

pub trim : Text → Text
unfolding trim_start
trim s = reverse (trim_start (reverse (trim_start s)))

pub starts_with : ℕ → Text → Bool
starts_with q [] = false
starts_with q (c ∷ s) = c == q

pub ends_with : ℕ → Text → Bool
ends_with q s = elim (get_last? s) [ none ↦ false | some c ↦ c == q ]

-- `inner.contains(&doubled)`
pub contains_doubled : ℕ → Text → Bool
contains_doubled q (a ∷ b ∷ s) = ((a == q) && (b == q)) || contains_doubled q (b ∷ s)
contains_doubled q s = false

-- `inner.replace(&doubled, &quote)`: from the left, without overlaps.
pub undouble : ℕ → Text → Text
undouble q (a ∷ b ∷ s) =
    let pair = q ∷ undouble q s in
    let one = a ∷ undouble q (b ∷ s) in if (a == q) && (b == q) then pair else one
undouble q s = s

-- The inner text with its doubled quotes collapsed.
pub collapse : ℕ → Text → Text
collapse q inner = if contains_doubled q inner then undouble q inner else inner

-- The body of `unquote`'s loop for one quote.
pub strip : ℕ → Text → Option Text
unfolding starts_with ends_with collapse
strip q trimmed =
    if leb 2 (length trimmed) && (starts_with q trimmed && ends_with q trimmed)
    then some (collapse q (take (length trimmed - 2) (drop 1 trimmed)))
    else none

or_else : Option Text → Text → Text
or_else none t = t
or_else (some s) t = s

or_try : Option Text → Option Text → Option Text
or_try none o = o
or_try (some s) o = some s

pub unquote : Text → Text
unfolding or_else or_try
unquote arg =
    let trimmed = trim arg in
    or_else (or_try (strip single_quote trimmed) (strip double_quote trimmed)) trimmed
