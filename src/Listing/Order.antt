-- ===== src/Listing/Order.antt =====
-- packages/rust/src/listing.rs (`by_name`, `name_prefix`): the prefix orders names as their bytes do.
use native.Mathlib.Nat.{mul-le-mul_right}
use dirsql.Prelude.{
  ℕ, zero, suc, ◌+◌, ◌*◌, ◌^◌, ◌<◌, ◌≡◌, refl, sym, inl, inr, Bool, true, false, [], ◌∷◌, Text, all,
  ltb, arith, Bool-cases, ltb→lt,
}
use dirsql.Listing.{less, greater, Listed, word, name_prefix, cmp_ℕ, then_with, cmp_names, by_name}

abbrev pub are_bytes : Text → Bool
are_bytes name = all (λ b. ltb b 256) name

power : (n : ℕ) → 256 ^ suc n ≡ 256 * 256 ^ n
power n = omega arith

scaled : (b m w : ℕ) → b < 256 → w < m → b * m + w < 256 * m
scaled b m w h g = omega (arith, g, mul-le-mul_right m h)

word-small : (n : ℕ) (name : Text) → are_bytes name ≡ true → word n name < 256 ^ n
unfolding word
word-small zero name h = omega arith
word-small (suc n) [] h = omega (arith, power n, word-small n [] h)
word-small (suc n) (b ∷ name) h = omega (
  arith,
  power n,
  scaled b (256 ^ n) (word n name) (ground (arith, h)) (word-small n name (ground (arith, h))),
)

apart : (a b m w v : ℕ) → a < b → w < m → a * m + w < b * m + v
apart a b m w v h g = omega (arith, g, mul-le-mul_right m h)

tail : (a b m w v : ℕ) → a ≡ b → a * m + w < b * m + v → w < v
tail a b m w v e h = let h' = rw e at h in omega (arith, h')

word-less :
    (n : ℕ) (s t : Text)
    → are_bytes s ≡ true
    → are_bytes t ≡ true
    → word n s < word n t
    → cmp_names s t ≡ less
unfolding word cmp_names cmp_ℕ then_with
word-less zero s t hs ht h = absurd (omega arith)
word-less (suc n) [] [] hs ht h = absurd (omega arith)
word-less (suc n) [] (b ∷ t) hs ht h = refl
word-less (suc n) (a ∷ s) [] hs ht h = absurd (omega arith)
word-less (suc n) (a ∷ s) (b ∷ t) hs ht h = elim (Bool-cases (ltb a b)) [
  | inl below ↦ rw below refl
  | inr above ↦ elim (Bool-cases (ltb b a)) [
    | inl over ↦ absurd (
        omega (
          arith,
          h,
          apart b a (256 ^ n) (word n t) (word n s) (ltb→lt b a over)
              (word-small n t (ground (arith, ht))),
        ))
    | inr same ↦
        rw (above, same)
          (word-less n s t (ground (arith, hs)) (ground (arith, ht))
            (tail a b (256 ^ n) (word n s) (word n t) (ground (arith, above, same)) h))
  ]
]

cmp_names-swap : (s t : Text) → cmp_names t s ≡ less → cmp_names s t ≡ greater
unfolding cmp_names cmp_ℕ then_with
cmp_names-swap [] [] h = ground (arith, h)
cmp_names-swap [] (b ∷ t) h = ground (arith, h)
cmp_names-swap (a ∷ s) [] h = refl
cmp_names-swap (a ∷ s) (b ∷ t) h = elim (Bool-cases (ltb b a)) [
  | inl over ↦ let under : ltb a b ≡ false = ground (arith, over) in rw (under, over) refl
  | inr above ↦ elim (Bool-cases (ltb a b)) [
    | inl below ↦ ground (arith, above, below, h)
    | inr same ↦ rw (same, above) (cmp_names-swap s t (let h' = rw (above, same) at h in h'))
  ]
]

-- Entries whose prefixes are those of their names, which are bytes, are in the order of their names.
pub by_name-names :
    (name : Listed → Text) (a b : Listed)
    → a.prefix ≡ name_prefix (name a)
    → b.prefix ≡ name_prefix (name b)
    → are_bytes (name a) ≡ true
    → are_bytes (name b) ≡ true
    → by_name name a b ≡ cmp_names (name a) (name b)
unfolding by_name name_prefix cmp_ℕ then_with
by_name-names name a b pa pb ha hb = elim (Bool-cases (ltb a.prefix b.prefix)) [
  | inl below ↦ rw below (
      sym (
        word-less 8 (name a) (name b) ha hb
          (omega (arith, ltb→lt a.prefix b.prefix below, pa, pb))))
  | inr above ↦ elim (Bool-cases (ltb b.prefix a.prefix)) [
    | inl over ↦
        rw (above, over)
          (sym (
            cmp_names-swap (name a) (name b) (
              word-less 8 (name b) (name a) hb ha
                (omega (arith, ltb→lt b.prefix a.prefix over, pa, pb)))))
    | inr same ↦ rw (above, same) refl
  ]
]
