-- ===== src/CliTable/Columns.antt =====
-- packages/rust/src/cli/table.rs: the columns of a table.
use dirsql.Prelude.{
  ℕ, ◌+◌, ◌≡◌, refl, Bool, true, false, ◌||◌, List, [], ◌∷◌, ◌++◌, Text, text_eq, text_eq_iff, any,
  if◌then◌else◌, arith, Bool-cases, inl, inr,
}
use dirsql.Json.{Json}
use dirsql.CliTable.{TableRow, object, not_object, see, see_keys, see_rows, columns}

-- How often a name occurs.
abbrev pub occurrences : Text → List Text → ℕ
occurrences k [] = 0
occurrences k (name ∷ names) = (if text_eq k name then 1 else 0) + occurrences k names

abbrev pub has_key : {F : Type 0} → Text → List (Text × Json F) → Bool
has_key k [] = false
has_key k ((key, v) ∷ entries) = text_eq k key || has_key k entries

abbrev pub some_row_has : {F : Type 0} → Text → List (TableRow F) → Bool
some_row_has k [] = false
some_row_has k (not_object ∷ rows) = some_row_has k rows
some_row_has k (object entries ∷ rows) = has_key k entries || some_row_has k rows

occurrences-snoc :
    (k key : Text) (names : List Text)
    → occurrences k (names ++ key ∷ []) ≡ occurrences k names + (if text_eq k key then 1 else 0)
occurrences-snoc k key [] = omega arith
occurrences-snoc k key (name ∷ names) = omega (arith, occurrences-snoc k key names)

-- The names are what was seen, each once, as far as the name `k` goes.
abbrev Once : Text → Bool → List Text × List Text → Type 0
Once k known s = (any (text_eq k) s.0 ≡ known) × (occurrences k s.1 ≡ (if known then 1 else 0))

see-Once :
    (k key : Text) (known : Bool) (s : List Text × List Text)
    → Once k known s
    → Once k (known || text_eq k key) (see s key)
unfolding see
see-Once k key known (seen, names) (e, f) = elim (Bool-cases (any (text_eq key) seen)) [
  | inl old ↦ elim (Bool-cases (text_eq k key)) [
    | inl same ↦
        let here : any (text_eq k) seen ≡ true = rw ((text_eq_iff k key).0 same) old in
        rw (old, same) (ground (arith, e, f, here))
    | inr other ↦ rw (old, other) (ground (arith, e, f))
  ]
  | inr new ↦ elim (Bool-cases (text_eq k key)) [
    | inl same ↦
        let absent : any (text_eq k) seen ≡ false = rw ((text_eq_iff k key).0 same) new in
        rw (new, same) (ground (arith, e, f, absent, same, occurrences-snoc k key names))
    | inr other ↦ rw (new, other) (ground (arith, e, f, other, occurrences-snoc k key names))
  ]
]

or_false : (a : Bool) → (a || false) ≡ a
or_false a = ground arith

or_assoc : (a b c : Bool) → (a || (b || c)) ≡ ((a || b) || c)
or_assoc a b c = ground arith

see_keys-Once :
    {F : Type 0} (k : Text) (known : Bool) (s : List Text × List Text)
    (entries : List (Text × Json F))
    → Once k known s
    → Once k (known || has_key k entries) (see_keys s entries)
unfolding see_keys
see_keys-Once k known s [] h = rw (or_false known) h
see_keys-Once k known s ((key, v) ∷ entries) h =
    rw (or_assoc known (text_eq k key) (has_key k entries))
      (see_keys-Once k (known || text_eq k key) (see s key) entries (see-Once k key known s h))

see_rows-Once :
    {F : Type 0} (k : Text) (known : Bool) (s : List Text × List Text) (rows : List (TableRow F))
    → Once k known s
    → Once k (known || some_row_has k rows) (see_rows s rows)
unfolding see_rows
see_rows-Once k known s [] h = rw (or_false known) h
see_rows-Once k known s (not_object ∷ rows) h = see_rows-Once k known s rows h
see_rows-Once k known s (object entries ∷ rows) h =
    rw (or_assoc known (has_key k entries) (some_row_has k rows)) (
      see_rows-Once k (known || has_key k entries) (see_keys s entries) rows
        (see_keys-Once k known s entries h))

-- The columns of a table are the keys of its rows, each of them once.
pub columns-occurrences :
    {F : Type 0} (k : Text) (rows : List (TableRow F))
    → occurrences k (columns rows) ≡ (if some_row_has k rows then 1 else 0)
unfolding columns
columns-occurrences k rows = (see_rows-Once k false ([], []) rows (refl, refl)).1
