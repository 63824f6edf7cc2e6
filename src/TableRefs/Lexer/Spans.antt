-- ===== src/TableRefs/Lexer/Spans.antt =====
-- packages/rust/src/table_refs.rs: the lexer ends, and its spans lie in order inside the statement.
use dirsql.SqlLiteral.{single_quote}
use dirsql.Prelude.{
  ℕ, zero, suc, ◌≤◌, ◌<◌, ◌≡◌, refl, Bool, true, false, Option, none, some, List, [], ◌∷◌, Text,
  ◌==◌, length, byte_len, utf8_width, if◌then◌else◌, arith, not,
}
use dirsql.TableRefs.Lexer.{
  Token, Spanned, span_while, read_quoted, read_bracketed, skip_comment, next_if, lex_plain,
  lex_one, tokens_from, tokens, offset, emit, is_word_char, or_comment, or_blob, as_quoted,
}

-- `r` is no longer than `s`, in characters and in bytes.
abbrev Behind : Text → Text → Type 0
Behind r s = (length r ≤ length s) × (byte_len r ≤ byte_len s)

width_pos : (c : ℕ) → 0 < utf8_width c
width_pos c = ground arith

span_while-Behind : (keep : ℕ → Bool) (s : Text) → Behind (span_while keep s).1 s
unfolding span_while
span_while-Behind keep [] = (omega arith, omega arith)
span_while-Behind keep (c ∷ s) = ground (arith, span_while-Behind keep s)

read_quoted-Behind : (q : ℕ) (s : Text) → Behind (read_quoted q s).1 s
unfolding read_quoted
read_quoted-Behind q [] = (omega arith, omega arith)
read_quoted-Behind q (c ∷ []) = ground arith
read_quoted-Behind q (c ∷ d ∷ s) =
    ground (arith, read_quoted-Behind q s, read_quoted-Behind q (d ∷ s))

read_bracketed-Behind : (s : Text) → Behind (read_bracketed s).1 s
unfolding read_bracketed
read_bracketed-Behind [] = (omega arith, omega arith)
read_bracketed-Behind (c ∷ s) = ground (arith, read_bracketed-Behind s)

skip_comment-Behind : (star : Bool) (s : Text) → Behind (skip_comment star s) s
unfolding skip_comment
skip_comment-Behind star [] = (omega arith, omega arith)
skip_comment-Behind star (c ∷ s) = ground (arith, skip_comment-Behind (c == b'*') s)

lex_plain-Behind : (c : ℕ) (s : Text) → Behind (lex_plain c s).1 s
unfolding lex_plain
lex_plain-Behind c s = ground (arith, span_while-Behind is_word_char s)

next_if-Behind : (c : ℕ) (s r : Text) → next_if c s ≡ some r → Behind r s
unfolding next_if
next_if-Behind c [] r h = cc
next_if-Behind c (d ∷ s) r h = ground arith

or_comment-Behind :
    (o : Option Text) (skip : Text → Text) (l : Option Token × Text) (s : Text)
    → ((r : Text) → o ≡ some r → Behind (skip r) s)
    → Behind l.1 s
    → Behind (or_comment o skip l).1 s
unfolding or_comment
or_comment-Behind none skip l s h k = k
or_comment-Behind (some r) skip l s h k = h r refl

or_blob-Behind :
    (o : Option Text) (l : Option Token × Text) (s : Text)
    → ((r : Text) → o ≡ some r → Behind r s)
    → Behind l.1 s
    → Behind (or_blob o l).1 s
unfolding or_blob
or_blob-Behind none l s h k = k
or_blob-Behind (some r) l s h k =
    let p = h r refl in let q = read_quoted-Behind single_quote r in (omega arith, omega arith)

-- A round that leaves no more than `s`.
record Leaves (s : Text) (l : Option Token × Text) : Type 0 where
  behind : Behind l.1 s

if-Leaves :
    {s : Text} (b : Bool) {l m : Option Token × Text}
    → Leaves s l
    → Leaves s m
    → Leaves s (if b then l else m)
if-Leaves true h k = h
if-Leaves false h k = k

Behind-refl : (s : Text) → Behind s s
Behind-refl s = (omega arith, omega arith)

Behind-trans : (r t s : Text) → Behind r t → Behind t s → Behind r s
Behind-trans r t s h k = (omega arith, omega arith)

Leaves-here : (s : Text) (o : Option Token) → Leaves s (o, s)
Leaves-here s o = record { behind = Behind-refl s }

Leaves-plain : (c : ℕ) (s : Text) → Leaves s (lex_plain c s)
Leaves-plain c s = record { behind = lex_plain-Behind c s }

Leaves-quoted : (c : ℕ) (s : Text) → Leaves s (as_quoted (read_quoted c s))
unfolding as_quoted
Leaves-quoted c s = record { behind = read_quoted-Behind c s }

Leaves-bracketed : (s : Text) → Leaves s (as_quoted (read_bracketed s))
unfolding as_quoted
Leaves-bracketed s = record { behind = read_bracketed-Behind s }

Leaves-line :
    (c : ℕ) (s : Text)
    → Leaves s
        (or_comment (next_if b'-' s) (λ r. (span_while (λ d. not (d == 10)) r).1) (lex_plain c s))
Leaves-line c s = record {
  behind =
      or_comment-Behind (next_if b'-' s) (λ r. (span_while (λ d. not (d == 10)) r).1)
        (lex_plain c s) s
        (λ r e.
          Behind-trans _ r s (span_while-Behind (λ d. not (d == 10)) r) (next_if-Behind b'-' s r e))
        (lex_plain-Behind c s);
}

Leaves-block :
    (c : ℕ) (s : Text) → Leaves s (or_comment (next_if b'*' s) (skip_comment false) (lex_plain c s))
Leaves-block c s = record {
  behind =
      or_comment-Behind (next_if b'*' s) (skip_comment false) (lex_plain c s) s
        (λ r e. Behind-trans _ r s (skip_comment-Behind false r) (next_if-Behind b'*' s r e))
        (lex_plain-Behind c s);
}

Leaves-blob : (c : ℕ) (s : Text) → Leaves s (or_blob (next_if single_quote s) (lex_plain c s))
Leaves-blob c s = record {
  behind =
      or_blob-Behind (next_if single_quote s) (lex_plain c s) s (next_if-Behind single_quote s)
        (lex_plain-Behind c s);
}

ruleset leaving = (
  if-Leaves, Leaves-here, Leaves-plain, Leaves-quoted, Leaves-bracketed, Leaves-line, Leaves-block,
  Leaves-blob,
)

-- One round of the loop leaves no more than it was given.
lex_one-Leaves : (c : ℕ) (s : Text) → Leaves s (lex_one c s)
unfolding lex_one
lex_one-Leaves c s = search leaving depth 16

lex_one-Behind : (c : ℕ) (s : Text) → Behind (lex_one c s).1 s
lex_one-Behind c s = (lex_one-Leaves c s).behind

-- Tokens lie in order between `lo` and `hi`, none of them empty.
abbrev pub InOrder : ℕ → ℕ → List Spanned → Type 0
InOrder lo hi [] = lo ≤ hi
InOrder lo hi (t ∷ ts) = (lo ≤ t.start) × (t.start < t.stop) × InOrder t.stop hi ts

InOrder-from : (lo mid hi : ℕ) (ts : List Spanned) → lo ≤ mid → InOrder mid hi ts → InOrder lo hi ts
InOrder-from lo mid hi [] h k = omega arith
InOrder-from lo mid hi (t ∷ ts) h k = (omega arith, k.1, k.2)

emit-InOrder :
    (start stop hi : ℕ) (o : Option Token) (ts : List Spanned)
    → start < stop
    → InOrder stop hi ts
    → InOrder start hi (emit start o stop ts)
emit-InOrder start stop hi none ts h k = InOrder-from start stop hi ts (omega arith) k
emit-InOrder start stop hi (some t) ts h k = (omega arith, h, k)

pub tokens_from-step :
    (fuel total c : ℕ) (s : Text) {ts : List Spanned}
    → tokens_from fuel total (lex_one c s).1 ≡ some ts
    → tokens_from (suc fuel) total (c ∷ s)
      ≡ some (emit (offset total (c ∷ s)) (lex_one c s).0 (offset total (lex_one c s).1) ts)
unfolding tokens_from
tokens_from-step fuel total c s e = rw (tokens_from, e)

pub tokens_from-nil : (fuel total : ℕ) → tokens_from fuel total [] ≡ some []
unfolding tokens_from
tokens_from-nil fuel total = refl

tokens_from-InOrder :
    (fuel total : ℕ) (s : Text)
    → length s ≤ fuel
    → byte_len s ≤ total
    → (ts : List Spanned) × (tokens_from fuel total s ≡ some ts) × InOrder (offset total s) total ts
unfolding tokens_from
tokens_from-InOrder zero total [] h k = ([], refl, omega arith)
tokens_from-InOrder (suc fuel) total [] h k = ([], refl, omega arith)
tokens_from-InOrder zero total (c ∷ s) h k = absurd (omega arith)
tokens_from-InOrder (suc fuel) total (c ∷ s) h k =
    let r = lex_one c s in
    let b = lex_one-Behind c s in
    let (ts, e, o) = tokens_from-InOrder fuel total r.1 (omega arith) (omega arith) in
    (
      emit (offset total (c ∷ s)) r.0 (offset total r.1) ts,
      tokens_from-step fuel total c s e,
      emit-InOrder (offset total (c ∷ s)) (offset total r.1) total r.0 ts
          (omega (arith, width_pos c)) o,
    )

-- The lexer ends on every statement, and its tokens are not empty, do not overlap, and stand in
-- order within the statement's bytes.
pub tokens-InOrder :
    (sql : Text) → (ts : List Spanned) × (tokens sql ≡ some ts) × InOrder 0 (byte_len sql) ts
unfolding tokens
tokens-InOrder sql =
    let (ts, e, o) =
      tokens_from-InOrder (length sql) (byte_len sql) sql (omega arith) (omega arith) in
    (ts, e, InOrder-from 0 (offset (byte_len sql) sql) (byte_len sql) ts (omega arith) o)
