-- ===== src/Brace/Escape/Plain.antt =====
-- packages/rust/src/brace.rs: an escaped word holds no alternation.
use dirsql.Prelude.{
  ℕ, zero, suc, ◌≡◌, refl, sym, ◌∙◌, Bool, true, false, ◌||◌, Option, none, some, [], ◌∷◌, ◌++◌,
  Text, codes, any, length, take, ◌==◌, if◌then◌else◌, arith, Bool-cases, inl, inr,
}
use dirsql.Brace.Escape.Closes.{class_end-Closes}
use dirsql.Brace.Escape.{
  class_end, escaped_pair, copy_class, escape_one, escape_from, escape_braces,
}

-- Whether globset reads a brace in the text as an alternation: it takes the character behind a
-- backslash, and those of a class that closes, as they stand; `skip` characters are passed over first.
pub has_alternation : ℕ → Text → Bool
has_alternation skip [] = false
has_alternation (suc skip) (c ∷ s) = has_alternation skip s
has_alternation zero (c ∷ s) =
    let escaped = has_alternation 1 s in
    let plain = has_alternation zero s in
    let class : Bool = elim (class_end s) [ none ↦ plain | some n ↦ has_alternation n s ] in
    if c == b'\\' then escaped else if c == b'[' then class else (c == b'{') || (c == b'}') || plain

-- Writing `out` before any text adds no alternation.
abbrev Quiet : Text → Type 0
Quiet out = (t : Text) → has_alternation 0 (out ++ t) ≡ has_alternation 0 t

skip-all : (s t : Text) (n : ℕ) → length s ≡ n → has_alternation n (s ++ t) ≡ has_alternation 0 t
unfolding has_alternation
skip-all s t n e = rw (sym e) (past s)
  where
    past : (s : Text) → has_alternation (length s) (s ++ t) ≡ has_alternation 0 t
    past [] = refl
    past (c ∷ s) = past s

class-Quiet : (s : Text) (n : ℕ) → class_end s ≡ some n → Quiet (b'[' ∷ take n s)
unfolding has_alternation
class-Quiet s n e t =
    let (closes, l) = class_end-Closes s t n e in rw closes (skip-all (take n s) t n l)

char-Quiet :
    (c : ℕ)
    → (c == b'\\') ≡ false
    → (c == b'[') ≡ false
    → ((c == b'{') || (c == b'}')) ≡ false
    → Quiet (c ∷ [])
unfolding has_alternation
char-Quiet c h g k t = ground (arith, h, g, k)

pair-Quiet : (c : ℕ) → Quiet (b'\\' ∷ c ∷ [])
unfolding has_alternation
pair-Quiet c t = refl

bracket-Quiet : Quiet (codes "[[]")
unfolding class_end
bracket-Quiet = class-Quiet (codes "[]") 2 refl

open-Quiet : Quiet (codes "[{]")
unfolding class_end
open-Quiet = class-Quiet (codes "{]") 2 refl

close-Quiet : Quiet (codes "[}]")
unfolding class_end
close-Quiet = class-Quiet (codes "}]") 2 refl

if-Quiet : (b : Bool) (x y : Text) → Quiet x → (b ≡ false → Quiet y) → Quiet (if b then x else y)
if-Quiet true x y h g = h
if-Quiet false x y h g = g refl

escaped_pair-Quiet : (next : ℕ) → Quiet (escaped_pair next)
unfolding escaped_pair
escaped_pair-Quiet next = if-Quiet (next == b'{') _ _ open-Quiet (λ _.
    if-Quiet (next == b'}') _ _ close-Quiet
      (λ _. if-Quiet (next == b',') _ _ (char-Quiet b',' refl refl refl) (λ _. pair-Quiet next)))

copy_class-Quiet : (s : Text) (o : Option ℕ) → class_end s ≡ o → Quiet (copy_class s o).0
unfolding copy_class
copy_class-Quiet s none e = bracket-Quiet
copy_class-Quiet s (some n) e = elim (Bool-cases (any (λ c. c == b'/') (take n s))) [
  | inl spans ↦ rw spans bracket-Quiet
  | inr inside ↦ rw inside (class-Quiet s n e)
]

if-first :
    (b : Bool) (x y : Text × ℕ) → Quiet x.0 → (b ≡ false → Quiet y.0) → Quiet (if b then x else y).0
if-first true x y h g = h
if-first false x y h g = g refl

-- A round writes nothing that opens an alternation, unless it is a backslash that ends the text.
escape_one-Quiet : (c next : ℕ) (s : Text) → Quiet (escape_one c (next ∷ s)).0
unfolding escape_one
escape_one-Quiet c next s = if-first (c == b'\\') _ _ (escaped_pair-Quiet next) (λ h.
    if-first (c == b'[') _ _ (copy_class-Quiet (next ∷ s) (class_end (next ∷ s)) refl) (λ g.
      if-first (c == b'{') _ _ open-Quiet
        (λ k. if-first (c == b'}') _ _ close-Quiet (λ l. char-Quiet c h g (ground (arith, k, l))))))

-- What is written last holds no alternation.
abbrev IsLast : Text → Type 0
IsLast out = has_alternation 0 (out ++ []) ≡ false

if-IsLast :
    (b : Bool) (x y : Text × ℕ)
    → IsLast x.0
    → (b ≡ false → IsLast y.0)
    → IsLast (if b then x else y).0
if-IsLast true x y h g = h
if-IsLast false x y h g = g refl

Quiet-IsLast : (out : Text) → Quiet out → IsLast out
unfolding has_alternation
Quiet-IsLast out h = h []

char-IsLast :
    (c : ℕ) → (c == b'[') ≡ false → (c == b'{') ≡ false → (c == b'}') ≡ false → IsLast (c ∷ [])
unfolding has_alternation
char-IsLast c h g k = ground (arith, h, g, k)

escape_one-IsLast : (c : ℕ) → IsLast (escape_one c []).0
unfolding escape_one
escape_one-IsLast c = if-IsLast (c == b'[') _ _ (Quiet-IsLast (codes "[[]") bracket-Quiet) (λ h.
    if-IsLast (c == b'{') _ _ (Quiet-IsLast (codes "[{]") open-Quiet) (λ g.
      if-IsLast (c == b'}') _ _ (Quiet-IsLast (codes "[}]") close-Quiet)
        (λ k. char-IsLast c h g k)))

escape_from-plain : (skip : ℕ) (s : Text) → has_alternation 0 (escape_from skip s) ≡ false
unfolding escape_from has_alternation
escape_from-plain zero [] = refl
escape_from-plain (suc skip) [] = refl
escape_from-plain (suc skip) (c ∷ s) = escape_from-plain skip s
escape_from-plain zero (c ∷ []) = escape_one-IsLast c
escape_from-plain zero (c ∷ next ∷ s) =
    escape_one-Quiet c next s (escape_from (escape_one c (next ∷ s)).1 (next ∷ s))
    ∙ escape_from-plain ((escape_one c (next ∷ s)).1) (next ∷ s)

-- An escaped word holds no alternation: globset takes each brace of it as a character.
pub escape_braces-plain : (word : Text) → has_alternation 0 (escape_braces word) ≡ false
unfolding escape_braces
escape_braces-plain word = escape_from-plain 0 word
