-- ===== src/TableRefs/Lexer/Quoted.antt =====
-- packages/rust/src/table_refs.rs, packages/rust/src/sql_literal.rs: a quoted name is one token.
use dirsql.Prelude.{
  ℕ, ◌≡◌, ap, sym, ◌∙◌, false, some, [], ◌∷◌, ◌++◌, Text, ◌==◌, ==-refl, ==_iff, arith, Bool-cases,
  inl, inr,
}
use dirsql.SqlLiteral.{single_quote, double_quote, double}
use dirsql.TableRefs.Lexer.{quoted, read_quoted, lex_one, as_quoted}

-- What follows does not begin with the quote.
abbrev pub Ends : ℕ → Text → Type 0
Ends q [] = Unit
Ends q (c ∷ s) = (c == q) ≡ false

read_quoted-cons :
    (q c : ℕ) (s : Text)
    → (c == q) ≡ false
    → read_quoted q (c ∷ s) ≡ (c ∷ (read_quoted q s).0, (read_quoted q s).1)
unfolding read_quoted
read_quoted-cons q c [] h = rw h
read_quoted-cons q c (d ∷ s) h = rw h

read_quoted-end : (q : ℕ) (rest : Text) → Ends q rest → read_quoted q (q ∷ rest) ≡ ([], rest)
unfolding read_quoted
read_quoted-end q [] h = rw (==-refl q)
read_quoted-end q (c ∷ s) h = ground (arith, ==-refl q)

read_quoted-pair :
    (q : ℕ) (s : Text) → read_quoted q (q ∷ q ∷ s) ≡ (q ∷ (read_quoted q s).0, (read_quoted q s).1)
unfolding read_quoted
read_quoted-pair q s = ground (arith, ==-refl q)

double-step :
    (q : ℕ) (s rest : Text)
    → read_quoted q (double q s ++ q ∷ rest) ≡ (s, rest)
    → read_quoted q (q ∷ q ∷ (double q s ++ q ∷ rest)) ≡ (q ∷ s, rest)
double-step q s rest h =
    read_quoted-pair q (double q s ++ q ∷ rest) ∙ ap {B = Text × Text} (λ r. (q ∷ r.0, r.1)) h

-- The lexer reads a doubled text back up to its closing quote.
pub read_quoted-double :
    (q : ℕ) (s rest : Text) → Ends q rest → read_quoted q (double q s ++ q ∷ rest) ≡ (s, rest)
unfolding double
read_quoted-double q [] rest h = read_quoted-end q rest h
read_quoted-double q (c ∷ s) rest h = elim (Bool-cases (c == q)) [
  | inl e ↦ rw e (
      double-step q s rest (read_quoted-double q s rest h)
      ∙ ap {B = Text × Text} (λ d. (d ∷ s, rest)) (sym ((==_iff c q).0 e)))
  | inr e ↦ rw e (
      read_quoted-cons q c (double q s ++ q ∷ rest) e
      ∙ ap {B = Text × Text} (λ r. (c ∷ r.0, r.1)) (read_quoted-double q s rest h))
]

-- A name that `quote_identifier` or `quote_literal` wrote is one token with that name, and the
-- lexer goes on right behind it, where no quote follows.
pub lex_one-quote :
    (s rest : Text)
    → Ends double_quote rest
    → Ends single_quote rest
    → (lex_one double_quote (double double_quote s ++ double_quote ∷ rest)
        ≡ (some (quoted s), rest))
      × (lex_one single_quote (double single_quote s ++ single_quote ∷ rest)
          ≡ (some (quoted s), rest))
unfolding lex_one
lex_one-quote s rest h g = (
  ap as_quoted (read_quoted-double double_quote s rest h),
  ap as_quoted (read_quoted-double single_quote s rest g),
)
