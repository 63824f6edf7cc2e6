-- ===== src/Reconcile/Unclaimed.antt =====
-- packages/rust/src/db.rs (`reconcile_rows`): the map of unclaimed stored rows, `HashMap<String,
-- Vec<usize>>`, as an association list. The last element of a `Vec` stands first.
pub mod Pop
use dirsql.Prelude.{ℕ, Option, none, some, List, [], ◌∷◌, Text, text_eq, if◌then◌else◌}

-- `entry(key).or_default().push(index)`
unfoldable pub push_index : Text → ℕ → List (Text × List ℕ) → List (Text × List ℕ)
push_index key index [] = (key, index ∷ []) ∷ []
push_index key index ((j, at) ∷ unclaimed) =
    if text_eq j key then (j, index ∷ at) ∷ unclaimed else (j, at) ∷ push_index key index unclaimed

pub pop_last : Text → List ℕ → List (Text × List ℕ) → Option (ℕ × List (Text × List ℕ))
pop_last j [] unclaimed = none
pop_last j (index ∷ at) unclaimed = some (index, (j, at) ∷ unclaimed)

pub put_behind :
    Text × List ℕ → Option (ℕ × List (Text × List ℕ)) → Option (ℕ × List (Text × List ℕ))
put_behind entry none = none
put_behind entry (some (index, unclaimed)) = some (index, entry ∷ unclaimed)

-- `get_mut(key).and_then(Vec::pop)`, with the map afterwards.
unfoldable pub pop_index : Text → List (Text × List ℕ) → Option (ℕ × List (Text × List ℕ))
unfolding pop_last put_behind
pop_index key [] = none
pop_index key ((j, at) ∷ unclaimed) =
    if text_eq j key then pop_last j at unclaimed else put_behind (j, at) (pop_index key unclaimed)

-- The indexes that the map has for a key.
unfoldable pub indexes_of : Text → List (Text × List ℕ) → List ℕ
indexes_of key [] = []
indexes_of key ((j, at) ∷ unclaimed) = if text_eq j key then at else indexes_of key unclaimed
