-- ===== src/Commands.antt =====
-- packages/rust/src/command.rs (`quote_windows_arg`, `substitute`): command lines. An argument is its
-- bytes, a token its code points.
pub mod Quoted
pub mod Pieces
use dirsql.Prelude.{
  ℕ, zero, suc, ◌+◌, ◌-◌, ◌*◌, Bool, true, false, Option, none, some, List, [], ◌∷◌, ◌++◌, Text,
  text_eq, ◌==◌, length, drop, if◌then◌else◌,
}

abbrev pub quote_mark : ℕ
quote_mark = 34

abbrev pub backslash : ℕ
backslash = 92

-- `repeat_n(b'\\', n)`
abbrev pub slashes : ℕ → List ℕ
slashes zero = []
slashes (suc n) = backslash ∷ slashes n

-- The loop over the bytes, with the count of the backslashes before them, and what follows it.
unfoldable pub quote_from : ℕ → List ℕ → List ℕ
quote_from n [] = slashes (n * 2) ++ quote_mark ∷ []
quote_from n (byte ∷ arg) =
    let counted = quote_from (suc n) arg in
    let rest = quote_from 0 arg in
    if byte == backslash
    then counted
    else if byte == quote_mark
    then slashes (n * 2 + 1) ++ quote_mark ∷ rest
    else slashes n ++ byte ∷ rest

unfoldable pub quote_windows_arg : List ℕ → List ℕ
unfolding quote_from
quote_windows_arg arg = quote_mark ∷ quote_from 0 arg

pub record Placeholder : Type 0 where
  pub name : Text
  pub value : Text

-- `str::find`, by what is before the character.
unfoldable pub before : ℕ → Text → Option Text
before c [] = none
before c (d ∷ s) =
    if d == c then some [] else elim (before c s) [ none ↦ none | some name ↦ some (d ∷ name) ]

-- `iter().position`, by the placeholder itself.
unfoldable pub find_placeholder : Text → List Placeholder → Option Placeholder
find_placeholder name [] = none
find_placeholder name (p ∷ placeholders) =
    if text_eq p.name name then some p else find_placeholder name placeholders

-- The placeholder at the start of a text, and how many characters it takes.
unfoldable pub match_placeholder : Text → List Placeholder → Option (Placeholder × ℕ)
unfolding before find_placeholder
match_placeholder [] placeholders = none
match_placeholder (c ∷ s) placeholders =
    if c == b'{' then named placeholders (before b'}' s) else none
  where
    with_length : ℕ → Option Placeholder → Option (Placeholder × ℕ)
    with_length n none = none
    with_length n (some p) = some (p, suc (n + 1))

    named : List Placeholder → Option Text → Option (Placeholder × ℕ)
    named placeholders none = none
    named placeholders (some name) = with_length (length name) (find_placeholder name placeholders)

-- The loop, which first passes over what a placeholder took.
unfoldable pub substitute_from : ℕ → Text → List Placeholder → Text
unfolding match_placeholder
substitute_from skip [] placeholders = []
substitute_from (suc skip) (c ∷ s) placeholders = substitute_from skip s placeholders
substitute_from zero (c ∷ s) placeholders = elim (match_placeholder (c ∷ s) placeholders) [
  | none ↦ c ∷ substitute_from 0 s placeholders
  | some found ↦ found.0.value ++ substitute_from (found.1 - 1) s placeholders
]

unfoldable pub substitute : Text → List Placeholder → Text
unfolding substitute_from
substitute token placeholders = substitute_from 0 token placeholders
