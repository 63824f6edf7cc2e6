-- ===== src/Reconcile/Indexes.antt =====
-- packages/rust/src/db.rs (`reconcile_rows`): the lists of indexes of a plan, and vectors written at an
-- index.
use dirsql.Prelude.{
  append-nil, ℕ, zero, suc, ◌<◌, ◌≡◌, refl, ap, ◌∙◌, Bool, true, false, ◌||◌, some, List, [], ◌∷◌,
  ◌++◌, get_elem?, length, if◌then◌else◌, ◌==◌, ==-refl, arith,
}
use dirsql.Reconcile.{set_elem}

abbrev pub has_index : ℕ → List ℕ → Bool
has_index i [] = false
has_index i (j ∷ js) = (j == i) || has_index i js

-- The new rows that a stored row is updated for.
abbrev pub updates_of : ℕ → List (ℕ × ℕ) → List ℕ
updates_of a [] = []
updates_of a ((b, j) ∷ pairs) = if b == a then j ∷ updates_of a pairs else updates_of a pairs

pub has_index-more :
    (i j : ℕ) (js : List ℕ) → has_index i js ≡ true → has_index i (js ++ j ∷ []) ≡ true
has_index-more i j [] h = ground (arith, h)
has_index-more i j (k ∷ js) h = ground (arith, h, has_index-more i j js)

pub has_index-last : (i : ℕ) (js : List ℕ) → has_index i (js ++ i ∷ []) ≡ true
has_index-last i [] = ground arith
has_index-last i (k ∷ js) = ground (arith, has_index-last i js)

pub has_index-other :
    (i j : ℕ) (js : List ℕ) → (j == i) ≡ false → has_index i (js ++ j ∷ []) ≡ has_index i js
has_index-other i j [] h = ground (arith, h)
has_index-other i j (k ∷ js) h = ground (arith, has_index-other i j js h)

pub updates_of-more :
    (a b j : ℕ) (ps : List (ℕ × ℕ))
    → updates_of a (ps ++ (b, j) ∷ []) ≡ updates_of a ps ++ (if b == a then j ∷ [] else [])
updates_of-more a b j [] = ground arith
updates_of-more a b j ((c, k) ∷ ps) = ground (arith, updates_of-more a b j ps)

pub updates_of-if :
    (c : Bool) (a b j : ℕ) (ps : List (ℕ × ℕ))
    → (b == a) ≡ false
    → updates_of a (if c then ps ++ (b, j) ∷ [] else ps) ≡ updates_of a ps
updates_of-if true a b j ps h =
    updates_of-more a b j ps
    ∙ ap (λ c. updates_of a ps ++ (if c then j ∷ [] else [])) h
    ∙ append-nil (updates_of a ps)
updates_of-if false a b j ps h = refl

pub updates_of-here :
    (c : Bool) (a j : ℕ) (ps : List (ℕ × ℕ))
    → updates_of a ps ≡ []
    → updates_of a (if c then ps ++ (a, j) ∷ [] else ps) ≡ (if c then j ∷ [] else [])
updates_of-here true a j ps h =
    updates_of-more a a j ps
    ∙ ap (λ l. l ++ (if a == a then j ∷ [] else [])) h
    ∙ ap (λ c. if c then j ∷ [] else []) (==-refl a)
updates_of-here false a j ps h = h

pub get-set_elem :
    {A : Type 0} (i : ℕ) (x : A) (xs : List A)
    → i < length xs
    → get_elem? (set_elem i x xs) i ≡ some x
unfolding set_elem
get-set_elem i x [] h = absurd (omega arith)
get-set_elem zero x (y ∷ xs) h = refl
get-set_elem (suc i) x (y ∷ xs) h = get-set_elem i x xs (omega arith)

pub get-set_other :
    {A : Type 0} (i j : ℕ) (x : A) (xs : List A)
    → (j == i) ≡ false
    → get_elem? (set_elem j x xs) i ≡ get_elem? xs i
unfolding set_elem
get-set_other i j x [] h = refl
get-set_other zero zero x (y ∷ xs) h = ground (arith, h)
get-set_other (suc i) zero x (y ∷ xs) h = refl
get-set_other zero (suc j) x (y ∷ xs) h = refl
get-set_other (suc i) (suc j) x (y ∷ xs) h = get-set_other i j x xs (ground (arith, h))

pub get-length :
    {A : Type 0} (xs : List A) (i : ℕ) (x : A) → get_elem? xs i ≡ some x → i < length xs
get-length [] i x e = ground (arith, e)
get-length (y ∷ xs) zero x e = omega arith
get-length (y ∷ xs) (suc i) x e = omega (arith, get-length xs i x e)

pub length-set : {A : Type 0} (i : ℕ) (x : A) (xs : List A) → length (set_elem i x xs) ≡ length xs
unfolding set_elem
length-set i x [] = refl
length-set zero x (y ∷ xs) = refl
length-set (suc i) x (y ∷ xs) = ap suc (length-set i x xs)
