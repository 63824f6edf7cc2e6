-- ===== src/PosixClass/Classes/Shorter.antt =====
-- packages/rust/src/posix_class.rs: an element moves the cursor on.
use dirsql.Prelude.{
  ℕ, ◌≤◌, ◌≡◌, refl, inl, inr, Option, none, some, [], ◌∷◌, Text, length, arith, Option-cases,
}
use dirsql.PosixClass.Classes.{
  class_name, class_at, equivalence_at, symbol_name, symbol_of, symbol_at,
}

class_name-Shorter : (s : Text) (r : Text × Text) → class_name s ≡ some r → length r.1 ≤ length s
unfolding class_name
class_name-Shorter [] r e = ground (arith, e)
class_name-Shorter (c ∷ []) r e = ground (arith, e)
class_name-Shorter (c ∷ d ∷ s) r e = elim (Option-cases (class_name (d ∷ s))) [
  | inl none_left ↦ ground (arith, e, none_left)
  | inr found ↦ ground (arith, e, found.1, class_name-Shorter (d ∷ s) found.0 found.1)
]

symbol_name-Shorter : (s : Text) (r : Text × Text) → symbol_name s ≡ some r → length r.1 ≤ length s
unfolding symbol_name
symbol_name-Shorter [] r e = ground (arith, e)
symbol_name-Shorter (c ∷ []) r e = ground (arith, e)
symbol_name-Shorter (c ∷ d ∷ s) r e = elim (Option-cases (symbol_name (d ∷ s))) [
  | inl none_left ↦ ground (arith, e, none_left)
  | inr found ↦ ground (arith, e, found.1, symbol_name-Shorter (d ∷ s) found.0 found.1)
]

pub class_at-Shorter :
    (c : ℕ) (s : Text) (r : Text × Text) → class_at (c ∷ s) ≡ some r → length r.1 ≤ length s
unfolding class_at
class_at-Shorter c [] r e = ground (arith, e)
class_at-Shorter c (d ∷ s) r e = ground (arith, e, class_name-Shorter s r)

pub equivalence_at-Shorter :
    (c : ℕ) (s : Text) (r : ℕ × Text) → equivalence_at (c ∷ s) ≡ some r → length r.1 ≤ length s
unfolding equivalence_at
equivalence_at-Shorter c (b ∷ d ∷ f ∷ g ∷ s) r e = ground (arith, e)
equivalence_at-Shorter c _ r e = ground (arith, e)

symbol_of-Shorter :
    (s : Text) (o : Option (Text × Text))
    → ((r : Text × Text) → o ≡ some r → length r.1 ≤ length s)
    → length (symbol_of o).1 ≤ length s
unfolding symbol_of
symbol_of-Shorter s none h = omega arith
symbol_of-Shorter s (some r) h = h r refl

pub symbol_at-Shorter :
    (c : ℕ) (s : Text) (r : Option ℕ × Text) → symbol_at (c ∷ s) ≡ some r → length r.1 ≤ length s
unfolding symbol_at
symbol_at-Shorter c [] r e = ground (arith, e)
symbol_at-Shorter c (d ∷ s) r e =
    ground (arith, e, symbol_of-Shorter s (symbol_name s) (symbol_name-Shorter s))
