-- ===== src/Params.antt =====
-- packages/rust/src/params.rs: the values that a query binds to a statement's placeholders. A
-- refusal holds what its message is written from. SQLite reports a name with its one-byte prefix.
pub mod Plan
use dirsql.Prelude.{
  ℕ, Bool, true, false, not, ◌&&◌, ◌||◌, Option, none, some, List, [], ◌∷◌, map, Text, text_eq,
  text_le, length, drop, ◌==◌, if◌then◌else◌,
}

pub data Params (V : Type 0) : Type 0 where
  positional : List V → Params V
  named : List (Text × V) → Params V

pub data Refusal : Type 0 where
  uses_named : Text → Refusal
  wrong_count : ℕ → ℕ → Refusal
  without_value : Text → Refusal
  uses_positional : Option Text → Refusal
  not_a_placeholder : Text → Refusal

pub data Result (A : Type 0) : Type 0 where
  ok : A → Result A
  err : Refusal → Result A

infixl 5 ◌>>=◌
abbrev pub ◌>>=◌ : {A B : Type 0} → Result A → (A → Result B) → Result B
ok a >>= f = f a
err e >>= f = err e

-- `name.starts_with('?')`
pub is_numbered : Text → Bool
is_numbered [] = false
is_numbered (c ∷ s) = c == b'?'

-- The first name that is not `?`-led.
pub first_named : List (Option Text) → Option Text
unfolding is_numbered
first_named [] = none
first_named (none ∷ names) = first_named names
first_named (some name ∷ names) = if is_numbered name then first_named names else some name

-- `values.get(key)`
pub value_of : {V : Type 0} → Text → List (Text × V) → Option V
value_of k [] = none
value_of k ((j, v) ∷ values) = if text_eq j k then some v else value_of k values

or_missing : {V : Type 0} → Text → Option V → Result V
or_missing name none = err (without_value name)
or_missing name (some v) = ok v

-- The closure over the names, for one of them.
pub bind_name : {V : Type 0} → List (Text × V) → Option Text → Result V
unfolding is_numbered value_of or_missing
bind_name values none = err (uses_positional none)
bind_name values (some name) =
    if is_numbered name
    then err (uses_positional (some name))
    else or_missing name (value_of (drop 1 name) values)

-- `collect::<Result<Vec<_>, _>>()`: the first refusal ends it.
pub bind_names : {V : Type 0} → List (Text × V) → List (Option Text) → Result (List V)
unfolding bind_name
bind_names values [] = ok []
bind_names values (name ∷ names) = do
  v ← bind_name values name
  vs ← bind_names values names
  ok (v ∷ vs)

-- Whether a name of the statement uses the key.
pub is_used : Text → List (Option Text) → Bool
unfolding is_numbered
is_used k [] = false
is_used k (none ∷ names) = is_used k names
is_used k (some name ∷ names) =
    (not (is_numbered name) && text_eq (drop 1 name) k) || is_used k names

pub unused_keys : {V : Type 0} → List (Option Text) → List (Text × V) → List Text
unfolding is_used
unused_keys names [] = []
unused_keys names ((k, v) ∷ values) =
    let rest = unused_keys names values in if is_used k names then rest else k ∷ rest

insert_text : Text → List Text → List Text
insert_text k [] = k ∷ []
insert_text k (j ∷ keys) = if text_le k j then k ∷ j ∷ keys else j ∷ insert_text k keys

-- `sort_unstable`
pub sort_texts : List Text → List Text
unfolding insert_text
sort_texts [] = []
sort_texts (k ∷ keys) = insert_text k (sort_texts keys)

unless_unused : {V : Type 0} → List Text → List V → Result (List V)
unless_unused [] planned = ok planned
unless_unused (k ∷ keys) planned = err (not_a_placeholder k)

unless_named : {V : Type 0} → Option Text → ℕ → List V → Result (List V)
unless_named none n values =
    if n == length values then ok values else err (wrong_count n (length values))
unless_named (some name) n values = err (uses_named name)

pub plan : {V : Type 0} → List (Option Text) → Params V → Result (List V)
unfolding first_named bind_names unused_keys sort_texts unless_unused unless_named
plan names (positional values) = unless_named (first_named names) (length names) values
plan names (named values) = do
  planned ← bind_names values names
  unless_unused (sort_texts (unused_keys names values)) planned
