-- ===== src/CollatingSymbol/Named.antt =====
-- packages/rust/src/collating_symbol.rs: what a name stands for.
use dirsql.Prelude.{
  ℕ, ◌<◌, ◌≡◌, refl, ◌⊎◌, inl, inr, true, Option, none, some, List, [], ◌∷◌, Text, all, ltb, length,
  arith,
}
use dirsql.CollatingSymbol.{names, lookup_name, single, or_single, collating_symbol}

lookup_name-Ascii :
    (name : Text) (entries : List (Text × ℕ)) (c : ℕ)
    → all (λ e. ltb e.1 128) entries ≡ true
    → lookup_name name entries ≡ some c
    → c < 128
unfolding lookup_name
lookup_name-Ascii name [] c ascii e = ground (arith, e)
lookup_name-Ascii name ((known, d) ∷ entries) c ascii e =
    ground (arith, ascii, e, lookup_name-Ascii name entries c)

lookup_name-short :
    (c : ℕ) (entries : List (Text × ℕ))
    → all (λ e. ltb 1 (length e.0)) entries ≡ true
    → lookup_name (c ∷ []) entries ≡ none
unfolding lookup_name
lookup_name-short c [] long = refl
lookup_name-short c (([], d) ∷ entries) long = ground (arith, long)
lookup_name-short c ((a ∷ [], d) ∷ entries) long = ground (arith, long)
lookup_name-short c ((a ∷ b ∷ known, d) ∷ entries) long =
    ground (arith, long, lookup_name-short c entries)

short-single : (c : ℕ) (o : Option ℕ) → o ≡ none → or_single (c ∷ []) o ≡ some c
unfolding or_single single
short-single c o e = rw e refl

or_single-cases :
    (name : Text) (o : Option ℕ) (c : ℕ)
    → or_single name o ≡ some c
    → (o ≡ some c) ⊎ (name ≡ c ∷ [])
unfolding or_single single
or_single-cases name (some d) c e = inl e
or_single-cases [] none c e = ground (arith, e)
or_single-cases (d ∷ []) none c e = ground (arith, e)
or_single-cases (d ∷ f ∷ name) none c e = ground (arith, e)

-- Where a name stands for a character, the character alone stands for it too, and it is the whole
-- name or an ASCII character.
pub collating_symbol-Ascii :
    (name : Text) (c : ℕ)
    → collating_symbol name ≡ some c
    → (collating_symbol (c ∷ []) ≡ some c) × ((name ≡ c ∷ []) ⊎ (c < 128))
unfolding collating_symbol
collating_symbol-Ascii name c e = (
  short-single c (lookup_name (c ∷ []) names) (lookup_name-short c names refl),
  elim (or_single-cases name (lookup_name name names) c e) [
    | inl known ↦ inr (lookup_name-Ascii name names c refl known)
    | inr single_char ↦ inl single_char
  ],
)
