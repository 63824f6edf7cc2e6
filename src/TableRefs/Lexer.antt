-- ===== src/TableRefs/Lexer.antt =====
-- packages/rust/src/table_refs.rs: `tokens` and its helpers. The loop takes fuel, one unit for each
-- character; `none` means that the fuel ran out.
pub mod Spans
pub mod Quoted
use mathlib.Core.Option
use dirsql.Prelude.{
  ℕ, zero, suc, ◌+◌, ◌-◌, Bool, true, false, not, ◌&&◌, ◌||◌, Option, none, some, List, [], ◌∷◌,
  ◌++◌, Text, ◌==◌, leb, length, byte_len, is_whitespace, is_ascii_digit, is_ascii_alphabetic,
  if◌then◌else◌,
}
use dirsql.SqlLiteral.{single_quote, double_quote}

pub data Token : Type 0 where
  quoted word : Text → Token
  open_paren close_paren comma dot end other : Token

-- Beyond ASCII every character counts, so only the ASCII letters and digits are spelled out.
pub is_word_char : ℕ → Bool
is_word_char c =
    is_ascii_alphabetic c || is_ascii_digit c || (c == b'_') || (c == b'$') || leb 128 c

-- What `skip_while` consumes, and what it leaves.
unfoldable pub span_while : (ℕ → Bool) → Text → Text × Text
span_while keep [] = ([], [])
span_while keep (c ∷ s) =
    let rest = span_while keep s in if keep c then (c ∷ rest.0, rest.1) else ([], c ∷ s)

-- `quoted`: the name, and the text behind its closing quote.
pub read_quoted : ℕ → Text → Text × Text
read_quoted q [] = ([], [])
read_quoted q (c ∷ []) = if c == q then ([], []) else (c ∷ [], [])
read_quoted q (c ∷ d ∷ s) =
    let doubled = read_quoted q s in
    let onward = read_quoted q (d ∷ s) in
    if c == q
    then (if d == q then (q ∷ doubled.0, doubled.1) else ([], d ∷ s))
    else (c ∷ onward.0, onward.1)

-- A name in brackets, which escapes nothing.
pub read_bracketed : Text → Text × Text
read_bracketed [] = ([], [])
read_bracketed (c ∷ s) =
    let rest = read_bracketed s in if c == b']' then ([], s) else (c ∷ rest.0, rest.1)

-- The rest of a block comment; `star` is whether the last character was one.
pub skip_comment : Bool → Text → Text
skip_comment star [] = []
skip_comment star (c ∷ s) =
    let rest = skip_comment (c == b'*') s in if star && (c == b'/') then s else rest

-- `chars.next_if(|n| n == c)`: the text behind `c`, if that comes next.
pub next_if : ℕ → Text → Option Text
next_if c [] = none
next_if c (d ∷ s) = if d == c then some s else none

abbrev pub Lexed : Type 0
Lexed = Option Token × Text

as_word : ℕ → Text × Text → Lexed
as_word c r = (some (word (c ∷ r.0)), r.1)

as_quoted : Text × Text → Lexed
as_quoted r = (some (quoted r.0), r.1)

-- The arms of the `match` from the digits on.
lex_plain : ℕ → Text → Lexed
unfolding is_word_char span_while as_word
lex_plain c s =
    if is_ascii_digit c || (c == b'?') || (c == b':') || (c == b'@') || (c == b'$')
    then (some other, (span_while is_word_char s).1)
    else if is_word_char c
    then as_word c (span_while is_word_char s)
    else (some other, s)

or_comment : Option Text → (Text → Text) → Lexed → Lexed
or_comment none skip otherwise = otherwise
or_comment (some s) skip otherwise = (none, skip s)

-- x'…' is a blob, not a name.
or_blob : Option Text → Lexed → Lexed
unfolding read_quoted
or_blob none otherwise = otherwise
or_blob (some s) otherwise = (some other, (read_quoted single_quote s).1)

-- One round of the loop, after the character `c`; no token where it says `continue`.
unfoldable pub lex_one : ℕ → Text → Lexed
unfolding lex_plain or_comment or_blob as_quoted read_quoted read_bracketed skip_comment next_if
lex_one c s =
    if is_whitespace c
    then (none, s)
    else if c == b'-'
    then or_comment (next_if b'-' s) (λ r. (span_while (λ d. not (d == 10)) r).1) (lex_plain c s)
    else if c == b'/'
    then or_comment (next_if b'*' s) (skip_comment false) (lex_plain c s)
    else if (c == single_quote) || (c == double_quote) || (c == 96)
    then as_quoted (read_quoted c s)
    else if c == b'['
    then as_quoted (read_bracketed s)
    else if (c == b'x') || (c == b'X')
    then or_blob (next_if single_quote s) (lex_plain c s)
    else if c == b'('
    then (some open_paren, s)
    else if c == b')'
    then (some close_paren, s)
    else if c == b','
    then (some comma, s)
    else if c == b'.'
    then (some dot, s)
    else if c == b';'
    then (some end, s)
    else lex_plain c s

pub record Spanned : Type 0 where
  pub start : ℕ
  pub stop : ℕ
  pub token : Token

-- `offset`: the byte offset of the next character in a statement of `total` bytes.
abbrev pub offset : ℕ → Text → ℕ
offset total left = total - byte_len left

abbrev pub emit : ℕ → Option Token → ℕ → List Spanned → List Spanned
emit start none stop out = out
emit start (some t) stop out = record { start = start; stop = stop; token = t } ∷ out

unfoldable pub tokens_from : ℕ → ℕ → Text → Option (List Spanned)
unfolding lex_one
tokens_from fuel total [] = some []
tokens_from zero total (c ∷ s) = none
tokens_from (suc fuel) total (c ∷ s) =
    let r = lex_one c s in
    Option.map (emit (offset total (c ∷ s)) r.0 (offset total r.1)) (tokens_from fuel total r.1)

unfoldable pub tokens : Text → Option (List Spanned)
unfolding tokens_from
tokens sql = tokens_from (length sql) (byte_len sql) sql
