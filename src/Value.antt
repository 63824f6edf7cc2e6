-- ===== src/Value.antt =====
-- packages/rust/src/db.rs (`Value`), packages/rust/src/lib.rs (`Row`): cells and rows. The type of
-- floating-point numbers is a parameter `F`. A row is the entries of a `HashMap` in the order in
-- which the map happens to be iterated.
use dirsql.Prelude.{
  ℕ, Bool, true, false, ◌&&◌, Option, none, some, List, [], ◌∷◌, Text, text_eq, ◌==◌, length,
  if◌then◌else◌,
}
use dirsql.Prelude.Int.{ℤ, eq_ℤ}

pub data Value (F : Type 0) : Type 0 where
  null : Value F
  integer : ℤ → Value F
  real : F → Value F
  text : Text → Value F
  blob : List ℕ → Value F

abbrev pub Row : Type 0 → Type 0
Row F = List (Text × Value F)

-- `derive(PartialEq)`, over the `==` of `f64`.
module _ {F : Type 0} (float_eq : F → F → Bool) where
  unfoldable pub value_eq : Value F → Value F → Bool
  value_eq null null = true
  value_eq (integer a) (integer b) = eq_ℤ a b
  value_eq (real a) (real b) = float_eq a b
  value_eq (text a) (text b) = text_eq a b
  value_eq (blob a) (blob b) = text_eq a b
  value_eq _ _ = false

-- `HashMap::get`
unfoldable pub row_get : {F : Type 0} → Text → Row F → Option (Value F)
row_get k [] = none
row_get k ((j, v) ∷ row) = if text_eq j k then some v else row_get k row

module _ {F : Type 0} (float_eq : F → F → Bool) where
  holds : Option (Value F) → Value F → Bool
  unfolding value_eq
  holds none v = false
  holds (some w) v = value_eq float_eq v w

  within : Row F → Row F → Bool
  unfolding holds row_get
  within [] b = true
  within ((k, v) ∷ a) b = holds (row_get k b) v && within a b

  -- `==` of two maps: as many entries, and each entry of one is in the other.
  unfoldable pub row_eq : Row F → Row F → Bool
  unfolding within
  row_eq a b = (length a == length b) && within a b
