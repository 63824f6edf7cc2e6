-- ===== src/PosixClass/Cursor.antt =====
-- packages/rust/src/posix_class.rs: each round of the loops moves the cursor on.
use dirsql.Prelude.{
  ℕ, zero, suc, ◌≤◌, ◌≡◌, refl, sym, ap, ◌∙◌, inl, inr, Bool, true, false, not, ◌||◌, ◌&&◌, Option,
  none, some, [], ◌∷◌, ◌++◌, Text, length, drop, take, all, ◌==◌, if◌then◌else◌, arith,
  Option-cases,
}
use dirsql.PosixClass.Classes.{class_at, equivalence_at, symbol_at}
use dirsql.PosixClass.Classes.Shorter.{class_at-Shorter, equivalence_at-Shorter, symbol_at-Shorter}
use dirsql.PosixClass.{
  is_some, Scan, or_char, to_end, range_or_member, round, members_from, expand_one, expand_from,
  expand_posix_classes,
}

or_char-Shorter :
    (c n : ℕ) (s : Text) (o : Option (Option ℕ × Text))
    → length s ≤ n
    → ((r : Option ℕ × Text) → o ≡ some r → length r.1 ≤ n)
    → length (or_char c s o).1 ≤ n
unfolding or_char
or_char-Shorter c n s none h g = h
or_char-Shorter c n s (some r) h g = g r refl

to_end-Shorter :
    (start : Option ℕ) (end : ℕ) (s : Text) (st : Scan)
    → length (to_end start end s st).1 ≤ length s
unfolding to_end
to_end-Shorter start end s st = elim (Option-cases (class_at (end ∷ s))) [
  | inl no_class ↦
      rw (no_class, to_end)
        (or_char-Shorter end (length s) s (symbol_at (end ∷ s)) (omega arith)
          (symbol_at-Shorter end s))
  | inr class ↦ rw (class.1, to_end) (class_at-Shorter end s (class.0) (class.1))
]

range_or_member-Shorter :
    (start : Option ℕ) (s : Text) (st : Scan) → length (range_or_member start s st).1 ≤ length s
unfolding range_or_member
range_or_member-Shorter start [] st = omega arith
range_or_member-Shorter start (c ∷ []) st = omega arith
range_or_member-Shorter start (dash ∷ end ∷ s) st = ground (arith, to_end-Shorter start end s st)

round-Shorter : (c : ℕ) (s : Text) (st : Scan) → length (round c s st).1 ≤ length s
unfolding round
round-Shorter c s st = elim (Option-cases (class_at (c ∷ s))) [
  | inr class ↦ rw (class.1, round) (class_at-Shorter c s (class.0) (class.1))
  | inl no_class ↦ elim (Option-cases (equivalence_at (c ∷ s))) [
    | inr same ↦ rw (no_class, same.1, round) (equivalence_at-Shorter c s (same.0) (same.1))
    | inl no_same ↦
        let start = or_char c s (symbol_at (c ∷ s)) in
        rw (no_class, no_same, round)
          (omega (
            arith,
            range_or_member-Shorter start.0 start.1
                (record st { rewrite = st.rewrite || is_some (symbol_at (c ∷ s)) }),
            or_char-Shorter c (length s) s (symbol_at (c ∷ s)) (omega arith)
                (symbol_at-Shorter c s),
          ))
  ]
]

round-step :
    (fuel : ℕ) (first : Bool) (c : ℕ) (s : Text) (st : Scan)
    → members_from (suc fuel) first (c ∷ s) st ≡ (
        if (c == b']') && not first
        then some (st, s)
        else members_from fuel false (round c s st).1 (round c s st).0)
unfolding members_from
round-step fuel first c s st = refl

-- As much fuel as there are characters is enough for a bracket: with any fuel from there on, the
-- loop returns the same, as each of its rounds moves the cursor on.
pub members_from-fuel :
    (fuel more : ℕ) (first : Bool) (s : Text) (st : Scan)
    → length s ≤ fuel
    → length s ≤ more
    → members_from fuel first s st ≡ members_from more first s st
unfolding members_from
members_from-fuel fuel more first [] st h g = refl
members_from-fuel zero more first (c ∷ s) st h g = elim h [ ]
members_from-fuel (suc fuel) zero first (c ∷ s) st h g = elim g [ ]
members_from-fuel (suc fuel) (suc more) first (c ∷ s) st h g =
    let shorter = round-Shorter c s st in
    round-step fuel first c s st
    ∙ ap (λ rest. if (c == b']') && not first then some (st, s) else rest)
        (members_from-fuel fuel more false (round c s st).1 (round c s st).0 (omega arith)
          (omega arith))
    ∙ sym (round-step more first c s st)

rejoin : (s : Text) → take 1 s ++ drop 1 s ≡ s
rejoin [] = refl
rejoin (c ∷ s) = refl

expand_from-plain :
    (s : Text) (skip : ℕ) → all (λ c. not (c == b'[')) s ≡ true → expand_from skip s ≡ drop skip s
unfolding expand_from expand_one
expand_from-plain [] zero h = refl
expand_from-plain [] (suc skip) h = refl
expand_from-plain (c ∷ s) (suc skip) h = expand_from-plain s skip (ground (arith, h))
expand_from-plain (c ∷ s) zero h =
    ground (arith, h, expand_from-plain s 0, expand_from-plain s 1, rejoin s)

-- `expand_posix_classes` leaves a pattern without a `[` as it is, escapes included.
pub expand_posix_classes-plain :
    (pattern : Text)
    → all (λ c. not (c == b'[')) pattern ≡ true
    → expand_posix_classes pattern ≡ pattern
unfolding expand_posix_classes
expand_posix_classes-plain pattern h = expand_from-plain pattern 0 h
