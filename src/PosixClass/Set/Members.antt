-- ===== src/PosixClass/Set/Members.antt =====
-- packages/rust/src/posix_class.rs: the characters that a rewritten bracket matches.
use dirsql.Prelude.{
  ℕ, ◌+◌, ◌-◌, ◌<◌, min, max, ◌≡◌, refl, sym, ap, ◌∙◌, inl, inr, Bool, true, false, not, ◌||◌, ◌&&◌,
  List, [], ◌∷◌, ◌++◌, any, all, ◌==◌, ltb, leb, if◌then◌else◌, ==_iff, arith, Bool-cases,
}
use dirsql.PosixClass.Classes.{Range}
use dirsql.PosixClass.Set.{
  without, positional, present, insert_sorted, sort_ranges, members_of, keep_present, specials_of,
  without_all, or_nul, plain_of,
}

present-if :
    (t : Bool) (r : Range) (set : List Range) (x : ℕ)
    → present (if t then r ∷ set else set) x ≡ (t && (leb r.0 x && leb x r.1) || present set x)
unfolding present
present-if true r set x = refl
present-if false r set x = refl

-- A range without `c`, in two parts, beside other ranges.
split_range :
    (a b c x : ℕ) (p q : Bool)
    → 0 < c
    → q ≡ (p && not (x == c))
    → (leb a (min b (c - 1)) && (leb a x && leb x (min b (c - 1)))
        || (leb (max a (c + 1)) b && (leb (max a (c + 1)) x && leb x b) || q))
      ≡ ((leb a x && leb x b || p) && not (x == c))
split_range a b c x p q h e = ground (arith, h, e)

without-present :
    (set : List Range) (c x : ℕ)
    → 0 < c
    → present (without set c) x ≡ (present set x && not (x == c))
unfolding without present
without-present [] c x h = refl
without-present ((a, b) ∷ set) c x h =
    let upper : Range = (max a (c + 1), b) in
    let has = leb (max a (c + 1)) b in
    present-if (leb a (min b (c - 1))) (a, min b (c - 1))
      (if has then upper ∷ without set c else without set c) x
    ∙ ap (λ q. leb a (min b (c - 1)) && (leb a x && leb x (min b (c - 1))) || q)
        (present-if has upper (without set c) x)
    ∙ split_range a b c x (present set x) (present (without set c) x) h (without-present set c x h)

insert_sorted-present :
    (r : Range) (set : List Range) (x : ℕ) → present (insert_sorted r set) x ≡ present (r ∷ set) x
unfolding insert_sorted present
insert_sorted-present r [] x = refl
insert_sorted-present r (q ∷ set) x = ground (arith, insert_sorted-present r set x)

sort_ranges-present : (set : List Range) (x : ℕ) → present (sort_ranges set) x ≡ present set x
unfolding sort_ranges present
sort_ranges-present [] x = refl
sort_ranges-present (r ∷ set) x =
    insert_sorted-present r (sort_ranges set) x
    ∙ ap (λ q. (leb r.0 x && leb x r.1) || q) (sort_ranges-present set x)

without_all-present :
    (set : List Range) (cs : List ℕ) (x : ℕ)
    → all (λ c. ltb 0 c) cs ≡ true
    → present (without_all set cs) x ≡ (present set x && not (any (λ c. x == c) cs))
unfolding without_all
without_all-present set [] x h = ground arith
without_all-present set (c ∷ cs) x h =
    ground (arith, h, without_all-present (without set c) cs x, without-present set c x)

pub keep_present-any :
    (set : List Range) (cs : List ℕ) (x : ℕ)
    → any (λ c. x == c) (keep_present set cs) ≡ (present set x && any (λ c. x == c) cs)
unfolding keep_present
keep_present-any set [] x = ground arith
keep_present-any set (c ∷ cs) x = elim (Bool-cases (x == c)) [
  | inl same ↦ rw (sym ((==_iff x c).0 same)) (ground (arith, keep_present-any set cs x))
  | inr differ ↦ ground (arith, differ, keep_present-any set cs x)
]

or_nul-present :
    (specials : List ℕ) (set : List Range) (x : ℕ)
    → 0 < x
    → present (or_nul specials set) x ≡ present set x
unfolding or_nul present
or_nul-present specials [] x h = ground (arith, h)
or_nul-present specials (r ∷ set) x h = refl

present-append : (a b : List Range) (x : ℕ) → present (a ++ b) x ≡ (present a x || present b x)
unfolding present
present-append [] b x = refl
present-append (r ∷ a) b x = ground (arith, present-append a b x)

one-more :
    (p q : Bool) (x : ℕ)
    → q ≡ (p && not (x == b'/'))
    → (q || present ((b'/', b'/') ∷ []) x) ≡ (p || (x == b'/'))
unfolding present
one-more p q x e = ground (arith, e)

members_of-present :
    (negated : Bool) (ranges : List Range) (x : ℕ)
    → present (members_of negated ranges) x
      ≡ (if negated then present ranges x || (x == b'/') else present ranges x && not (x == b'/'))
unfolding members_of
members_of-present true ranges x =
    present-append (without ranges b'/') ((b'/', b'/') ∷ []) x
    ∙ one-more (present ranges x) (present (without ranges b'/') x) x
        (without-present ranges b'/' x (omega arith))
members_of-present false ranges x = without-present ranges b'/' x (omega arith)

together :
    (plain special present_in p : Bool)
    → plain ≡ (present_in && not p)
    → special ≡ (present_in && p)
    → (plain || special) ≡ present_in
together plain special present_in p e f = ground (arith, e, f)

none-left : (plain present_in p : Bool) → plain ≡ (present_in && not p) → (plain && p) ≡ false
none-left plain present_in p e = ground (arith, e)

-- Where `x` is not NUL, the plain ranges and the special characters have the members of the written
-- bracket, with the separator left out or added, and no plain range holds a special character.
pub parts-members :
    (negated : Bool) (ranges : List Range) (x : ℕ)
    → 0 < x
    → let set = members_of negated ranges in
      ((present (plain_of set) x || any (λ c. x == c) (specials_of set)) ≡ (
        if negated then present ranges x || (x == b'/') else present ranges x && not (x == b'/')))
      × ((present (plain_of set) x && any (λ c. x == c) positional) ≡ false)
unfolding plain_of specials_of
parts-members negated ranges x h =
    let set = members_of negated ranges in
    let plain =
      or_nul-present (specials_of set) (sort_ranges (without_all set positional)) x h
      ∙ sort_ranges-present (without_all set positional) x
      ∙ without_all-present set positional x refl in
    let special = keep_present-any set positional x in
    let p = any (λ c. x == c) positional in
    (
      together (present (plain_of set) x) (any (λ c. x == c) (specials_of set)) (present set x) p
            plain special
          ∙ members_of-present negated ranges x,
      none-left (present (plain_of set) x) (present set x) p plain,
    )
