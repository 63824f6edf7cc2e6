-- ===== src/Brace/Sequence.antt =====
-- packages/rust/src/brace.rs (`sequence`, `Term`, `number_prefix_len`, `pad_width`): the ranges that
-- a brace group holds. Ends and steps are ASCII, so their bytes are their characters.
use mathlib.Core.Option
use dirsql.Prelude.{
  ℕ, zero, suc, ◌+◌, ◌-◌, ◌*◌, ◌^◌, max, Bool, false, ◌||◌, ◌&&◌, Option, none, some, List, [], ◌∷◌,
  ◌++◌, map, Text, all, length, take, drop, leb, ltb, ◌==◌, is_ascii_digit, is_ascii_alphabetic,
  decimal, if◌then◌else◌,
}
use dirsql.Prelude.Int.{ℤ, pos, negsuc}
use dirsql.Brace.Steps.{steps}

-- `split_once("..")`
pub split_dots : Text → Option (Text × Text)
split_dots [] = none
split_dots (c ∷ []) = none
split_dots (c ∷ d ∷ s) =
    let rest = Option.map (λ r. (c ∷ r.0, r.1)) (split_dots (d ∷ s)) in
    if (c == b'.') && (d == b'.') then some ([], s) else rest

number_from : ℕ → Text → ℕ
number_from n [] = n
number_from n (c ∷ s) = number_from (n * 10 + (c - b'0')) s

negative : ℕ → ℤ
negative zero = pos 0
negative (suc n) = negsuc n

digits_only : Text → Option ℕ
unfolding number_from
digits_only [] = none
digits_only (c ∷ s) = if all is_ascii_digit (c ∷ s) then some (number_from 0 (c ∷ s)) else none

in_range : ℕ → ℕ → ℤ → Option ℤ
in_range bound n value = if leb n bound then some value else none

-- `str::parse::<i64>`
unfoldable pub parse_i64 : Text → Option ℤ
unfolding digits_only in_range negative
parse_i64 [] = none
parse_i64 (c ∷ s) =
    if c == b'-'
    then (do n ← digits_only s; in_range (2 ^ 63) n (negative n))
    else if c == b'+'
    then (do n ← digits_only s; in_range (2 ^ 63 - 1) n (pos n))
    else (do n ← digits_only (c ∷ s); in_range (2 ^ 63 - 1) n (pos n))
  where
    infixl 5 ◌>>=◌
    ◌>>=◌ : {A B : Type 0} → Option A → (A → Option B) → Option B
    none >>= f = none
    some a >>= f = f a

pub data Term : Type 0 where
  int : ℤ → Term
  char : ℕ → Term

count_digits : Text → ℕ
count_digits [] = 0
count_digits (c ∷ s) = let rest = count_digits s in if is_ascii_digit c then suc rest else 0

pub number_prefix_len : Text → ℕ
unfolding count_digits
number_prefix_len [] = 0
number_prefix_len (c ∷ s) =
    if (c == b'+') || (c == b'-') then suc (count_digits s) else count_digits (c ∷ s)

-- `starts_with`, and the `padded` of `pad_width`.
starts_zero : Text → Bool
starts_zero [] = false
starts_zero (c ∷ s) = c == b'0'

is_padded : Text → Bool
unfolding starts_zero
is_padded [] = false
is_padded (c ∷ s) =
    (ltb 1 (length (c ∷ s)) && (c == b'0'))
    || (ltb 2 (length (c ∷ s)) && (c == b'-') && starts_zero s)

pub pad_width : Text → Text → ℕ
unfolding is_padded
pad_width lhs rhs = if is_padded lhs || is_padded rhs then max (length lhs) (length rhs) else 0

zeros : ℕ → Text
zeros zero = []
zeros (suc n) = b'0' ∷ zeros n

-- `{n:0width$}`: the sign counts towards the width.
unfoldable pub format : ℕ → ℤ → Text
unfolding zeros
format width (pos n) = zeros (width - length (decimal n)) ++ decimal n
format width (negsuc n) = b'-' ∷ zeros (width - suc (length (decimal (suc n)))) ++ decimal (suc n)

-- The character of a number that `u8::try_from` takes.
char_terms : List ℤ → List Text
char_terms [] = []
char_terms (pos n ∷ terms) =
    let rest = char_terms terms in if leb n 255 then (n ∷ []) ∷ rest else rest
char_terms (negsuc n ∷ terms) = char_terms terms

-- The end of a range, and the text behind it.
end_char : Text → Option (Term × Text)
end_char [] = none
end_char (c ∷ []) = if is_ascii_alphabetic c then some (char c, []) else none
end_char (c ∷ d ∷ s) = if is_ascii_alphabetic c && (d == b'.') then some (char c, d ∷ s) else none

end_or_char : Text → Text → Option ℤ → Option (Term × Text)
unfolding end_char
end_or_char rhs left none = end_char rhs
end_or_char rhs left (some n) = some (int n, left)

pub end_of : Text → Option (Term × Text)
unfolding parse_i64 number_prefix_len end_or_char
end_of rhs =
    let digits = number_prefix_len rhs in
    end_or_char rhs (drop digits rhs) (parse_i64 (take digits rhs))

pub step_of : Text → Option ℤ
unfolding parse_i64
step_of [] = some (pos 1)
step_of (a ∷ b ∷ c ∷ s) = if (a == b'.') && (b == b'.') then parse_i64 (c ∷ s) else none
step_of _ = none

start_or_char : Text → Option ℤ → Option Term
start_or_char lhs (some n) = some (int n)
start_or_char (c ∷ []) none = if is_ascii_alphabetic c then some (char c) else none
start_or_char _ none = none

pub start_of : Text → Option Term
unfolding parse_i64 start_or_char
start_of lhs = start_or_char lhs (parse_i64 lhs)

-- The last `match`; `lhs` and `end` are the texts of the ends.
pub terms_of : Text → Text → Term → Term → ℤ → Option (List Text)
unfolding pad_width format char_terms steps
terms_of lhs end (int lo) (int hi) step =
    Option.map (map (format (pad_width lhs end))) (steps lo hi step)
terms_of lhs end (char lo) (char hi) step = Option.map char_terms (steps (pos lo) (pos hi) step)
terms_of lhs end _ _ step = none

bind_step : Text → Text → Term → Option Term → Option ℤ → Option (List Text)
unfolding terms_of
bind_step lhs end last (some first) (some step) = terms_of lhs end first last step
bind_step lhs end last _ _ = none

bind_end : Text → Text → Option (Term × Text) → Option (List Text)
unfolding bind_step start_of step_of
bind_end lhs rhs none = none
bind_end lhs rhs (some (last, tail)) =
    bind_step lhs (take (length rhs - length tail) rhs) last (start_of lhs) (step_of tail)

split_ends : Option (Text × Text) → Option (List Text)
unfolding bind_end end_of
split_ends none = none
split_ends (some ([], rhs)) = none
split_ends (some (c ∷ lhs, [])) = none
split_ends (some (c ∷ lhs, d ∷ rhs)) = bind_end (c ∷ lhs) (d ∷ rhs) (end_of (d ∷ rhs))

unfoldable pub sequence : Text → Option (List Text)
unfolding split_ends split_dots
sequence amble = split_ends (split_dots amble)
