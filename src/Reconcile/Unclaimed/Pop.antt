-- ===== src/Reconcile/Unclaimed/Pop.antt =====
-- packages/rust/src/db.rs (`reconcile_rows`): what a push and a pop do to the indexes of each key.
use dirsql.Prelude.{
  ℕ, ◌≡◌, refl, inl, inr, Bool, true, false, Option, none, some, List, [], ◌∷◌, Text, text_eq,
  text_eq_iff, text_eq_refl, if◌then◌else◌, arith, Bool-cases,
}
use dirsql.Reconcile.Unclaimed.{push_index, pop_index, indexes_of, pop_last, put_behind}

differs : (j key k : Text) → text_eq j key ≡ false → text_eq j k ≡ true → text_eq key k ≡ false
differs j key k h g = ground (arith, h, g, text_eq_iff j k, text_eq_iff j key, text_eq_iff key k)

pushed-here :
    (b : Bool) (i : ℕ) (at rest : List ℕ)
    → (if b then i ∷ at else rest)
      ≡ (if b then i ∷ (if b then at else rest) else if b then at else rest)
pushed-here true i at rest = refl
pushed-here false i at rest = refl

pushed-later :
    (b c : Bool) (i : ℕ) (at rest new : List ℕ)
    → (b ≡ true → c ≡ false)
    → new ≡ (if c then i ∷ rest else rest)
    → (if b then at else new) ≡ (if c then i ∷ (if b then at else rest) else if b then at else rest)
pushed-later true c i at rest new h e = rw (h refl) refl
pushed-later false c i at rest new h e = e

pub indexes_of-push :
    (k key : Text) (i : ℕ) (u : List (Text × List ℕ))
    → indexes_of k (push_index key i u)
      ≡ (if text_eq key k then i ∷ indexes_of k u else indexes_of k u)
unfolding indexes_of push_index
indexes_of-push k key i [] = refl
indexes_of-push k key i ((j, at) ∷ u) = elim (Bool-cases (text_eq j key)) [
  | inl same ↦
      rw ((text_eq_iff j key).0 same, text_eq_refl key)
        (pushed-here (text_eq key k) i at (indexes_of k u))
  | inr other ↦ rw other (
      pushed-later (text_eq j k) (text_eq key k) i at (indexes_of k u)
        (indexes_of k (push_index key i u)) (differs j key k other) (indexes_of-push k key i u))
]

popped-here :
    (b : Bool) (at rest tail : List ℕ)
    → (if b then at else tail) ≡ (if b then at else if b then rest else tail)
popped-here true at rest tail = refl
popped-here false at rest tail = refl

popped-later :
    (b c : Bool) (at old new tail : List ℕ)
    → (b ≡ true → c ≡ false)
    → new ≡ (if c then tail else old)
    → (if b then at else new) ≡ (if c then tail else if b then at else old)
popped-later true c at old new tail h e = rw (h refl) refl
popped-later false c at old new tail h e = e

-- A pop takes the first index of its key, and leaves those of the other keys.
abbrev pub Pops : Text → List (Text × List ℕ) → Option (ℕ × List (Text × List ℕ)) → Type 0
Pops key u none = indexes_of key u ≡ []
Pops key u (some (i, left)) =
    (rest : List ℕ) × (indexes_of key u ≡ i ∷ rest)
    × ((k : Text) → indexes_of k left ≡ (if text_eq key k then rest else indexes_of k u))

Pops-put_behind :
    (key j : Text) (at : List ℕ) (u : List (Text × List ℕ)) (o : Option (ℕ × List (Text × List ℕ)))
    → text_eq j key ≡ false
    → Pops key u o
    → Pops key ((j, at) ∷ u) (put_behind (j, at) o)
unfolding indexes_of put_behind
Pops-put_behind key j at u none other h = rw other h
Pops-put_behind key j at u (some (i, left)) other (rest, e, h) = (
  rest,
  rw other e,
  λ k.
      popped-later (text_eq j k) (text_eq key k) at (indexes_of k u) (indexes_of k left) rest
        (differs j key k other) (h k),
)

pub pop_index-Pops : (key : Text) (u : List (Text × List ℕ)) → Pops key u (pop_index key u)
unfolding indexes_of pop_index pop_last
pop_index-Pops key [] = refl
pop_index-Pops key ((j, at) ∷ u) = elim (Bool-cases (text_eq j key)) [
  | inl same ↦ rw ((text_eq_iff j key).0 same, text_eq_refl key) (last at)
  | inr other ↦
      let tail = Pops-put_behind key j at u (pop_index key u) other (pop_index-Pops key u) in
      rw other tail
]
  where
    last : (at : List ℕ) → Pops key ((key, at) ∷ u) (pop_last key at u)
    last [] = rw (text_eq_refl key) refl
    last (i ∷ at) = (
      at,
      rw (text_eq_refl key) refl,
      λ k. popped-here (text_eq key k) at (i ∷ at) (indexes_of k u),
    )
