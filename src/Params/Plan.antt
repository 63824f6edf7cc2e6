-- ===== src/Params/Plan.antt =====
-- packages/rust/src/params.rs: exactly when a plan succeeds, and with which values.
use dirsql.Prelude.{
  ◌≡◌, ◌≢◌, refl, ◌↔◌, Bool, true, false, ◌&&◌, Option, none, some, List, [], ◌∷◌, Text, length,
  drop, arith,
}
use dirsql.Params.{
  positional, named, ok, is_numbered, first_named, value_of, bind_names, is_used, unused_keys,
  sort_texts, insert_text, plan,
}

-- No placeholder has a name: each is a bare `?`, or a numbered one.
abbrev pub nameless : List (Option Text) → Bool
nameless [] = true
nameless (none ∷ names) = nameless names
nameless (some name ∷ names) = is_numbered name && nameless names

first_named-none :
    (names : List (Option Text)) → (first_named names ≡ none) ↔ (nameless names ≡ true)
unfolding first_named
first_named-none [] = ground arith
first_named-none (none ∷ names) = first_named-none names
first_named-none (some name ∷ names) = ground (arith, first_named-none names)

-- A sequence of values is bound exactly when no placeholder has a name and there are as many values as
-- placeholders, and then the values are bound in order.
pub plan-positional :
    {V : Type 0} (names : List (Option Text)) (values planned : List V)
    → (plan names (positional values) ≡ ok planned)
      ↔ ((nameless names ≡ true) × (length names ≡ length values) × (planned ≡ values))
unfolding plan
plan-positional names values planned = ground (arith, first_named-none names)

module _ {V : Type 0} (values : List (Text × V)) where
  -- Each placeholder has a name, and takes the value under that name.
  abbrev pub Binds : List (Option Text) → List V → Type 0
  Binds [] [] = Unit
  Binds (some name ∷ names) (v ∷ planned) =
      (is_numbered name ≡ false) × (value_of (drop 1 name) values ≡ some v) × Binds names planned
  Binds _ _ = ⊥

  Binds-bind_names :
      (names : List (Option Text)) (planned : List V)
      → Binds names planned
      → bind_names values names ≡ ok planned
  unfolding bind_names
  Binds-bind_names [] [] h = refl
  Binds-bind_names [] (v ∷ planned) h = absurd h
  Binds-bind_names (none ∷ names) planned h = absurd h
  Binds-bind_names (some name ∷ names) [] h = absurd h
  Binds-bind_names (some name ∷ names) (v ∷ planned) (p, q, h) =
      let rest = Binds-bind_names names planned h in ground arith

  bind_names-Binds :
      (names : List (Option Text)) (planned : List V)
      → bind_names values names ≡ ok planned
      → Binds names planned
  unfolding bind_names
  bind_names-Binds [] [] h = tt
  bind_names-Binds [] (v ∷ planned) h = ground arith
  bind_names-Binds (none ∷ names) planned h = cc
  bind_names-Binds (some name ∷ names) [] h = ground arith
  bind_names-Binds (some name ∷ names) (v ∷ planned) h =
      let rest : bind_names values names ≡ ok planned = ground arith in
      (ground arith, ground arith, bind_names-Binds names planned rest)

-- Every value is under the name of a placeholder.
abbrev pub all_used : {V : Type 0} → List (Option Text) → List (Text × V) → Bool
all_used names [] = true
all_used names ((k, v) ∷ values) = is_used k names && all_used names values

unused_keys-nil :
    {V : Type 0} (names : List (Option Text)) (values : List (Text × V))
    → (unused_keys names values ≡ []) ↔ (all_used names values ≡ true)
unfolding unused_keys
unused_keys-nil names [] = ground arith
unused_keys-nil names ((k, v) ∷ values) = ground (arith, unused_keys-nil names values)

insert_text-ne-nil : (k : Text) (keys : List Text) → insert_text k keys ≢ []
unfolding insert_text
insert_text-ne-nil k [] = ground arith
insert_text-ne-nil k (j ∷ keys) = ground arith

sort_texts-nil : (keys : List Text) → (sort_texts keys ≡ []) ↔ (keys ≡ [])
unfolding sort_texts
sort_texts-nil [] = ground arith
sort_texts-nil (k ∷ keys) = (λ h. absurd (insert_text-ne-nil k (sort_texts keys) h), λ h. cc)

-- A mapping of values is bound exactly when each placeholder has a name with a value under it and
-- each value is under the name of a placeholder, and then each placeholder takes the value under its name.
pub plan-named :
    {V : Type 0} (names : List (Option Text)) (values : List (Text × V)) (planned : List V)
    → (plan names (named values) ≡ ok planned)
      ↔ (Binds values names planned × (all_used names values ≡ true))
unfolding plan
plan-named names values planned = (
  λ h.
      let bound : bind_names values names ≡ ok planned = ground arith in
      let none_left : sort_texts (unused_keys names values) ≡ [] = ground arith in
      (
        bind_names-Binds values names planned bound,
        (unused_keys-nil names values).0 ((sort_texts-nil (unused_keys names values)).0 none_left),
      ),
  λ h. ground (
    arith,
    Binds-bind_names values names planned h.0,
    (sort_texts-nil (unused_keys names values)).1 ((unused_keys-nil names values).1 h.1),
  ),
)
