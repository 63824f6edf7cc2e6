-- ===== src/SqlLiteral/RoundTrip.antt =====
-- packages/rust/src/sql_literal.rs: quoting and unquoting are inverses.
use mathlib.Core.List.{reverse, reverse-append, reverse-reverse}
use dirsql.Prelude.{
  ℕ, ◌-◌, ◌≡◌, refl, ap, sym, ◌∙◌, false, none, some, [], ◌∷◌, ◌++◌, Text, arith, ==-refl, length,
  length-append, take, drop, take-append, get_last?-snoc, is_whitespace,
}
use dirsql.SqlLiteral.{
  single_quote, double_quote, double, quote_literal, quote_identifier, trim_start, trim,
  contains_doubled, undouble, collapse, strip, unquote,
}

undouble-double : (q : ℕ) (s : Text) → undouble q (double q s) ≡ s
unfolding undouble double
undouble-double q [] = refl
undouble-double q (c ∷ []) = ground arith
undouble-double q (c ∷ d ∷ s) = ground (arith, undouble-double q (d ∷ s))

-- A text whose doubling holds no doubled quote has no quote to double.
double-id : (q : ℕ) (s : Text) → contains_doubled q (double q s) ≡ false → double q s ≡ s
unfolding contains_doubled double
double-id q [] h = refl
double-id q (c ∷ []) h = ground arith
double-id q (c ∷ d ∷ s) h = ground (arith, double-id q (d ∷ s))

collapse-double : (q : ℕ) (s : Text) → collapse q (double q s) ≡ s
unfolding collapse
collapse-double q s = ground (arith, undouble-double q s, double-id q s)

trim_start-id : (q : ℕ) (s : Text) → is_whitespace q ≡ false → trim_start (q ∷ s) ≡ q ∷ s
unfolding trim_start
trim_start-id q s h = rw h

-- What a quote encloses has nothing to trim.
trim-quoted :
    (q : ℕ) (s : Text) → is_whitespace q ≡ false → trim (q ∷ s ++ q ∷ []) ≡ q ∷ s ++ q ∷ []
unfolding trim
trim-quoted q s h =
    ap (λ r. reverse (trim_start (reverse r))) (trim_start-id q (s ++ q ∷ []) h)
    ∙ ap (λ r. reverse (trim_start r)) (reverse-append (q ∷ s) (q ∷ []))
    ∙ ap reverse (trim_start-id q (reverse (q ∷ s)) h)
    ∙ ap reverse (sym (reverse-append (q ∷ s) (q ∷ [])))
    ∙ reverse-reverse (q ∷ s ++ q ∷ [])

inner-quoted :
    (q : ℕ) (t : Text) → take (length (q ∷ t ++ q ∷ []) - 2) (drop 1 (q ∷ t ++ q ∷ [])) ≡ t
inner-quoted q t =
    ap (λ n. take n (t ++ q ∷ [])) (omega (arith, length-append t (q ∷ [])))
    ∙ take-append t (q ∷ [])

strip-quoted : (q : ℕ) (s : Text) → strip q (q ∷ double q s ++ q ∷ []) ≡ some s
unfolding strip
strip-quoted q s = ground (
  arith,
  get_last?-snoc (q ∷ double q s) q,
  ==-refl q,
  length-append (double q s) (q ∷ []),
  inner-quoted q (double q s),
  collapse-double q s,
)

-- An identifier's quotes are not a literal's.
strip-other : (t : Text) → strip single_quote (double_quote ∷ t ++ double_quote ∷ []) ≡ none
unfolding strip
strip-other t = ground arith

-- Unquoting a quoted literal gives the text back, and unquoting a quoted identifier does too: a
-- path-table's argument reaches the module as it was written.
pub unquote-quote :
    (s : Text) → (unquote (quote_literal s) ≡ s) × (unquote (quote_identifier s) ≡ s)
unfolding unquote quote_literal quote_identifier
unquote-quote s = (
  rw (trim-quoted single_quote (double single_quote s) refl, strip-quoted single_quote s) refl,
  rw
      (
        trim-quoted double_quote (double double_quote s) refl,
        strip-other (double double_quote s),
        strip-quoted double_quote s,
      )
      refl,
)
