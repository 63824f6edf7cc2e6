-- ===== src/Brace/Escape/Closes.antt =====
-- packages/rust/src/brace.rs (`class_end`): where a class closes does not depend on what follows.
use mathlib.Core.Option
use dirsql.Prelude.{
  ℕ, zero, suc, ◌≡◌, ◌≢◌, refl, sym, ap, ◌∙◌, true, false, ◌||◌, Option, none, some, [], ◌∷◌, ◌++◌,
  Text, length, take, ◌==◌, arith, Bool-cases, inl, inr,
}
use dirsql.Brace.Escape.{to_close, after_member, class_end}

-- A search finds the same place in the text up to that place, whatever follows.
abbrev pub Closes : (Text → Option ℕ) → Text → Text → ℕ → Type 0
Closes f s t n = (f (take n s ++ t) ≡ some n) × (length (take n s) ≡ n)

map-suc : (o : Option ℕ) (n : ℕ) → Option.map suc o ≡ some n → (m : ℕ) × (o ≡ some m) × (suc m ≡ n)
map-suc none n e = ground (arith, e)
map-suc (some m) n e = (m, refl, ground (arith, e))

one-here : (c : ℕ) (s : Text) (n : ℕ) → to_close (c ∷ s) ≡ some n → (c == b']') ≡ true → n ≡ 1
unfolding to_close
one-here c s n e h = ground (arith, e, h)

later-here :
    (c : ℕ) (s : Text) (n : ℕ)
    → to_close (c ∷ s) ≡ some n
    → (c == b']') ≡ false
    → Option.map suc (to_close s) ≡ some n
unfolding to_close
later-here c s n e h = let e' = rw h at e in e'

close-here : (c : ℕ) (s t : Text) → (c == b']') ≡ true → Closes to_close (c ∷ s) t 1
unfolding to_close
close-here c s t h = (rw h refl, refl)

close-later :
    (c : ℕ) (s t : Text) (m : ℕ)
    → (c == b']') ≡ false
    → Closes to_close s t m
    → Closes to_close (c ∷ s) t (suc m)
unfolding to_close
close-later c s t m h (e, l) = (rw (h, e) refl, ap suc l)

to_close-Closes : (s t : Text) (n : ℕ) → to_close s ≡ some n → Closes to_close s t n
unfolding to_close
to_close-Closes [] t n e = ground (arith, e)
to_close-Closes (c ∷ s) t n e = elim (Bool-cases (c == b']')) [
  | inl here ↦ rw (one-here c s n e here) (close-here c s t here)
  | inr later ↦
      let (m, found, next) = map-suc (to_close s) n (later-here c s n e later) in
      rw (sym next) (close-later c s t m later (to_close-Closes s t m found))
]

to_close-pos : (s : Text) → to_close s ≢ some 0
unfolding to_close
to_close-pos [] e = ground (arith, e)
to_close-pos (c ∷ s) e = ground (arith, e)

after_member-pos : (s : Text) → after_member s ≢ some 0
unfolding after_member
after_member-pos [] e = ground (arith, e)
after_member-pos (c ∷ s) e = ground (arith, e, to_close-pos (c ∷ s))

-- The character in front of a search is passed over.
after_member-first :
    (c : ℕ) (s t : Text) (m : ℕ)
    → (c == b']') ≡ true
    → Closes to_close s t m
    → Closes after_member (c ∷ s) t (suc m)
unfolding after_member
after_member-first c s t m h (e, l) = (rw (h, e) refl, ap suc l)

after_member-eq-to_close :
    (c : ℕ) (s : Text) → (c == b']') ≡ false → after_member (c ∷ s) ≡ to_close (c ∷ s)
unfolding after_member
after_member-eq-to_close c s h = rw h refl

after_member-plain :
    (c : ℕ) (s t : Text) (n : ℕ)
    → (c == b']') ≡ false
    → Closes to_close (c ∷ s) t n
    → Closes after_member (c ∷ s) t n
after_member-plain c s t zero h (e, l) = absurd (to_close-pos t e)
after_member-plain c s t (suc k) h (e, l) = (after_member-eq-to_close c (take k s ++ t) h ∙ e, l)

class_end-first :
    (c : ℕ) (s t : Text) (m : ℕ)
    → ((c == b'!') || (c == b'^')) ≡ true
    → Closes after_member s t m
    → Closes class_end (c ∷ s) t (suc m)
unfolding class_end
class_end-first c s t m h (e, l) = (rw (h, e) refl, ap suc l)

class_end-plain :
    (c : ℕ) (s t : Text) (n : ℕ)
    → ((c == b'!') || (c == b'^')) ≡ false
    → Closes after_member (c ∷ s) t n
    → Closes class_end (c ∷ s) t n
unfolding class_end
class_end-plain c s t zero h (e, l) = absurd (after_member-pos t e)
class_end-plain c s t (suc k) h (e, l) = (rw h e, l)

after_member-Closes : (s t : Text) (n : ℕ) → after_member s ≡ some n → Closes after_member s t n
unfolding after_member
after_member-Closes [] t n e = ground (arith, e)
after_member-Closes (c ∷ s) t n e = elim (Bool-cases (c == b']')) [
  | inl first ↦
      let (m, found, next) = map-suc (to_close s) n (let e' = rw first at e in e') in
      rw (sym next) (after_member-first c s t m first (to_close-Closes s t m found))
  | inr plain ↦
      after_member-plain c s t n plain
        (to_close-Closes (c ∷ s) t n (sym (after_member-eq-to_close c s plain) ∙ e))
]

pub class_end-Closes : (s t : Text) (n : ℕ) → class_end s ≡ some n → Closes class_end s t n
unfolding class_end
class_end-Closes [] t n e = ground (arith, e)
class_end-Closes (c ∷ s) t n e = elim (Bool-cases ((c == b'!') || (c == b'^'))) [
  | inl first ↦
      let (m, found, next) = map-suc (after_member s) n (let e' = rw first at e in e') in
      rw (sym next) (class_end-first c s t m first (after_member-Closes s t m found))
  | inr plain ↦
      class_end-plain c s t n plain (after_member-Closes (c ∷ s) t n (let e' = rw plain at e in e'))
]
