-- ===== src/PosixClass/Set/Clear.antt =====
-- packages/rust/src/posix_class.rs: the plain ranges of a rewritten bracket hold no character that
-- globset reads as syntax.
use dirsql.Prelude.{
  ℕ, zero, suc, ◌≡◌, refl, Bool, true, false, not, ◌||◌, ◌&&◌, List, [], ◌∷◌, any, all, ◌==◌, leb,
  arith,
}
use dirsql.PosixClass.Classes.{Range}
use dirsql.PosixClass.Set.{
  without, positional, present, insert_sorted, sort_ranges, members_of, specials_of, without_all,
  or_nul, plain_of,
}
use dirsql.PosixClass.Set.Members.{parts-members}

abbrev pub is_positional : ℕ → Bool
is_positional x = any (λ c. x == c) positional

abbrev pub is_clear : Range → Bool
is_clear r = not (is_positional r.0) && not (is_positional r.1)

abbrev is_ordered : Range → Bool
is_ordered r = leb r.0 r.1

without-ordered : (set : List Range) (c : ℕ) → all is_ordered (without set c) ≡ true
unfolding without
without-ordered [] c = refl
without-ordered ((a, b) ∷ set) c = ground (arith, without-ordered set c)

without_all-ordered :
    (set : List Range) (cs : List ℕ)
    → all is_ordered set ≡ true
    → all is_ordered (without_all set cs) ≡ true
unfolding without_all
without_all-ordered set [] h = h
without_all-ordered set (c ∷ cs) h = without_all-ordered (without set c) cs (without-ordered set c)

insert_sorted-ordered :
    (r : Range) (set : List Range)
    → is_ordered r ≡ true
    → all is_ordered set ≡ true
    → all is_ordered (insert_sorted r set) ≡ true
unfolding insert_sorted
insert_sorted-ordered r [] h g = ground (arith, h)
insert_sorted-ordered r (q ∷ set) h g = ground (arith, h, g, insert_sorted-ordered r set)

sort_ranges-ordered :
    (set : List Range) → all is_ordered set ≡ true → all is_ordered (sort_ranges set) ≡ true
unfolding sort_ranges
sort_ranges-ordered [] h = refl
sort_ranges-ordered (r ∷ set) h =
    insert_sorted-ordered r (sort_ranges set) (ground (arith, h))
      (sort_ranges-ordered set (ground (arith, h)))

or_nul-ordered :
    (specials : List ℕ) (set : List Range)
    → all is_ordered set ≡ true
    → all is_ordered (or_nul specials set) ≡ true
unfolding or_nul
or_nul-ordered specials [] h = ground arith
or_nul-ordered specials (r ∷ set) h = h

plain_of-ordered : (set : List Range) → all is_ordered (plain_of set) ≡ true
unfolding plain_of
plain_of-ordered set = or_nul-ordered (specials_of set) (sort_ranges (without_all set positional)) (
    sort_ranges-ordered (without_all set positional)
      (without_all-ordered (without set b']') (b'-' ∷ b'!' ∷ b'^' ∷ []) (without-ordered set b']')))

leb_refl : (a : ℕ) → leb a a ≡ true
leb_refl a = ground arith

-- The ends of a range are among its members.
clear_ends :
    (set : List Range)
    → all is_ordered set ≡ true
    → ((x : ℕ) → (present set x && is_positional x) ≡ false)
    → all is_clear set ≡ true
unfolding present
clear_ends [] h g = refl
clear_ends ((a, b) ∷ set) h g =
    both (is_positional a) (is_positional b) _ (end a (leb_refl a) ordered)
      (end b ordered (leb_refl b))
      (clear_ends set (ground (arith, h)) (λ x. rest (leb a x && leb x b) _ _ (g x)))
  where
    ordered : leb a b ≡ true
    ordered = ground (arith, h)

    member : (p q r : Bool) → p ≡ true → ((p || q) && r) ≡ false → r ≡ false
    member p q r e f = ground (arith, e, f)

    rest : (p q r : Bool) → ((p || q) && r) ≡ false → (q && r) ≡ false
    rest p q r e = ground (arith, e)

    both : (p q r : Bool) → p ≡ false → q ≡ false → r ≡ true → ((not p && not q) && r) ≡ true
    both p q r e f g = ground (arith, e, f, g)

    end : (x : ℕ) → leb a x ≡ true → leb x b ≡ true → is_positional x ≡ false
    end x e f = member (leb a x && leb x b) (present set x) (is_positional x) (rw (e, f) refl) (g x)

abbrev pub is_filled : List Range → Bool
is_filled [] = false
is_filled (r ∷ set) = true

or_nul-filled :
    (specials : List ℕ) (set : List Range)
    → (any (λ c. c == b']') specials || is_filled (or_nul specials set)) ≡ true
unfolding or_nul
or_nul-filled specials [] = ground arith
or_nul-filled specials (r ∷ set) = ground arith

pub plain_of-clear :
    (negated : Bool) (ranges : List Range)
    → all is_clear (plain_of (members_of negated ranges)) ≡ true
plain_of-clear negated ranges =
    let plain = plain_of (members_of negated ranges) in
    clear_ends plain (plain_of-ordered (members_of negated ranges)) (λ x. unmatched x)
  where
    unmatched :
        (x : ℕ) → (present (plain_of (members_of negated ranges)) x && is_positional x) ≡ false
    unmatched zero = ground arith
    unmatched (suc x) = (parts-members negated ranges (suc x) (omega arith)).1

pub plain_of-filled :
    (set : List Range) → (any (λ d. d == b']') (specials_of set) || is_filled (plain_of set)) ≡ true
unfolding plain_of
plain_of-filled set = or_nul-filled (specials_of set) (sort_ranges (without_all set positional))
