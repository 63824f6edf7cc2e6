-- ===== src/Reconcile/Free.antt =====
-- packages/rust/src/db.rs (`reconcile_rows`): the map of unclaimed rows holds, for each identity, the
-- stored rows with it that no new row has claimed, in order. `ids` is the stored rows' identities.
use dirsql.Prelude.{
  ℕ, suc, ◌-◌, ◌≤◌, ◌≡◌, refl, sym, ap, ◌∙◌, inl, inr, Bool, true, false, not, ◌&&◌, some, List, [],
  ◌∷◌, map, Text, text_eq, text_eq_iff, get_elem?, if◌then◌else◌, arith, Bool-cases,
}
use dirsql.Reconcile.Unclaimed.{indexes_of}
use dirsql.Reconcile.Unclaimed.Pop.{indexes_of-push}
use dirsql.Reconcile.{StoredRow, set_elem, ident, unclaimed_from, repeated}
use dirsql.Value.{Value}

abbrev pub when : Bool → ℕ → List ℕ → List ℕ
when b i rest = if b then i ∷ rest else rest

abbrev pub free : ℕ → List Text → List Bool → Text → List ℕ
free i [] claimed k = []
free i (id ∷ ids) [] k = []
free i (id ∷ ids) (claim ∷ claimed) k =
    when (not claim && text_eq id k) i (free (suc i) ids claimed k)

pub free-unclaimed :
    {F : Type 0} (debug : List (Value F) → Text) (i : ℕ) (stored : List (StoredRow F)) (at : List ℕ)
    (k : Text)
    → indexes_of k (unclaimed_from debug i stored at)
      ≡ free i (map (λ row. ident debug row.1 at) stored) (repeated false stored) k
unfolding unclaimed_from indexes_of
free-unclaimed debug i [] at k = refl
free-unclaimed debug i ((rowid, cells) ∷ stored) at k =
    indexes_of-push k (ident debug cells at) i (unclaimed_from debug (suc i) stored at)
    ∙ ap (when (text_eq (ident debug cells at) k) i) (free-unclaimed debug (suc i) stored at k)

-- Claiming the first free row of an identity.
abbrev pub Claims : ℕ → List Text → List Bool → Text → ℕ → List ℕ → Type 0
Claims i ids claimed k a rest =
    (i ≤ a)
    × (get_elem? ids (a - i) ≡ some k)
    × ((key : Text)
        → free i ids (set_elem (a - i) true claimed) key
          ≡ (if text_eq k key then rest else free i ids claimed key))

head_eq : (a b : ℕ) (xs ys : List ℕ) → a ∷ xs ≡ b ∷ ys → (a ≡ b) × (xs ≡ ys)
head_eq a b xs ys e = (ground (arith, e), ground (arith, e))

claimed-here :
    (b : Bool) (i : ℕ) (mine rest : List ℕ)
    → (b ≡ true → mine ≡ rest)
    → mine ≡ (if b then rest else when b i mine)
claimed-here true i mine rest h = h refl
claimed-here false i mine rest h = refl

claimed-later :
    (b c : Bool) (i : ℕ) (new old rest : List ℕ)
    → (b ≡ true → c ≡ false)
    → new ≡ (if b then rest else old)
    → when c i new ≡ (if b then rest else when c i old)
claimed-later true c i new old rest h e = rw (h refl) e
claimed-later false c i new old rest h e = ap (when c i) e

same_key :
    (claim : Bool) (id k : Text) → (not claim && text_eq id k) ≡ true → (claim ≡ false) × (id ≡ k)
same_key true id k e = ground (arith, e)
same_key false id k e = (refl, (text_eq_iff id k).0 e)

not_free :
    (claim : Bool) (id k key : Text)
    → (not claim && text_eq id k) ≡ false
    → text_eq k key ≡ true
    → (not claim && text_eq id key) ≡ false
not_free claim id k key e same = rw (sym ((text_eq_iff k key).0 same)) e

one_less : (i a : ℕ) → suc i ≤ a → a - i ≡ suc (a - suc i)
one_less i a h = omega arith

pub free-Claims :
    (i : ℕ) (ids : List Text) (claimed : List Bool) (k : Text) (a : ℕ) (rest : List ℕ)
    → free i ids claimed k ≡ a ∷ rest
    → Claims i ids claimed k a rest
unfolding set_elem
free-Claims i [] claimed k a rest e = ground (arith, e)
free-Claims i (id ∷ ids) [] k a rest e = ground (arith, e)
free-Claims i (id ∷ ids) (claim ∷ claimed) k a rest e =
    elim (Bool-cases (not claim && text_eq id k)) [
      | inl here ↦
          let (open_claim, same) = same_key claim id k here in
          let (first, others) =
            head_eq i a (free (suc i) ids claimed k) rest (let e' = rw here at e in e') in
          rw (sym first, none_less i, open_claim, same)
            (
              omega arith,
              refl,
              λ key. claimed-here (text_eq k key) i (free (suc i) ids claimed key) rest (λ equal.
                  ap (free (suc i) ids claimed) (sym ((text_eq_iff k key).0 equal)) ∙ others),
            )
      | inr later ↦
          let (past, found, claims) =
            free-Claims (suc i) ids claimed k a rest (let e' = rw later at e in e') in
          rw (one_less i a past) (
            omega (arith, past),
            found,
            λ key.
                claimed-later (text_eq k key) (not claim && text_eq id key) i
                  (free (suc i) ids (set_elem (a - suc i) true claimed) key)
                  (free (suc i) ids claimed key) rest (not_free claim id k key later) (claims key),
          )
    ]
  where
    none_less : (i : ℕ) → i - i ≡ 0
    none_less i = omega arith

-- The first free row is not claimed.
pub free-claimed :
    (i : ℕ) (ids : List Text) (claimed : List Bool) (k : Text) (a : ℕ) (rest : List ℕ)
    → free i ids claimed k ≡ a ∷ rest
    → (i ≤ a) × (get_elem? claimed (a - i) ≡ some false)
free-claimed i [] claimed k a rest e = ground (arith, e)
free-claimed i (id ∷ ids) [] k a rest e = ground (arith, e)
free-claimed i (id ∷ ids) (claim ∷ claimed) k a rest e =
    elim (Bool-cases (not claim && text_eq id k)) [
      | inl here ↦
          let (open_claim, same) = same_key claim id k here in
          let (first, others) =
            head_eq i a (free (suc i) ids claimed k) rest (let e' = rw here at e in e') in
          rw (sym first, none_less i) (omega arith, ap some open_claim)
      | inr later ↦
          let (past, found) =
            free-claimed (suc i) ids claimed k a rest (let e' = rw later at e in e') in
          rw (one_less i a past) (omega (arith, past), found)
    ]
  where
    none_less : (i : ℕ) → i - i ≡ 0
    none_less i = omega arith
