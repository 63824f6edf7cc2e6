-- ===== src/PosixClass/Set.antt =====
-- packages/rust/src/posix_class.rs: the set of ranges of a bracket, a list that is sorted and without
-- duplicates, and how it is written for globset.
pub mod Members
pub mod Clear
pub mod Read
use mathlib.Core.Option
use mathlib.Core.List.{flat_map}
use dirsql.Prelude.{
  ℕ, zero, suc, ◌+◌, ◌-◌, min, max, Bool, true, false, not, ◌||◌, ◌&&◌, Option, none, some, List,
  [], ◌∷◌, ◌++◌, map, Text, codes, text_eq, any, length, take, drop, leb, ltb, ◌==◌, get_elem?,
  if◌then◌else◌,
}
use dirsql.PosixClass.Classes.{Range}

abbrev pub range_eq : Range → Range → Bool
range_eq p q = (p.0 == q.0) && (p.1 == q.1)

abbrev pub range_lt : Range → Range → Bool
range_lt p q = ltb p.0 q.0 || ((p.0 == q.0) && ltb p.1 q.1)

-- `BTreeSet::insert`
unfoldable pub insert_range : Range → List Range → List Range
insert_range r [] = r ∷ []
insert_range r (q ∷ set) =
    if range_eq r q then q ∷ set else if range_lt r q then r ∷ q ∷ set else q ∷ insert_range r set

-- `BTreeSet::extend`
unfoldable pub extend_ranges : List Range → List Range → List Range
unfolding insert_range
extend_ranges [] set = set
extend_ranges (r ∷ rs) set = extend_ranges rs (insert_range r set)

-- `without`, whose `c - 1` does not underflow as `c` is never NUL.
pub without : List Range → ℕ → List Range
without [] c = []
without ((a, b) ∷ set) c =
    let rest = without set c in
    let upper = if leb (max a (c + 1)) b then (max a (c + 1), b) ∷ rest else rest in
    if leb a (min b (c - 1)) then (a, min b (c - 1)) ∷ upper else upper

abbrev pub positional : List ℕ
positional = b']' ∷ b'-' ∷ b'!' ∷ b'^' ∷ []

pub present : List Range → ℕ → Bool
present set c = any (λ r. leb r.0 c && leb c r.1) set

-- `sort_unstable` of ranges: equal ones are not told apart.
pub insert_sorted : Range → List Range → List Range
insert_sorted r [] = r ∷ []
insert_sorted r (q ∷ set) = if range_lt r q then r ∷ q ∷ set else q ∷ insert_sorted r set

pub sort_ranges : List Range → List Range
unfolding insert_sorted
sort_ranges [] = []
sort_ranges (r ∷ set) = insert_sorted r (sort_ranges set)

-- The variable `set` of `render`, with the separator dropped or, in a negated set, added.
pub members_of : Bool → List Range → List Range
unfolding without
members_of negated ranges =
    let set = without ranges b'/' in if negated then set ++ (b'/', b'/') ∷ [] else set

pub keep_present : List Range → List ℕ → List ℕ
unfolding present
keep_present set [] = []
keep_present set (c ∷ cs) =
    let rest = keep_present set cs in if present set c then c ∷ rest else rest

pub specials_of : List Range → List ℕ
unfolding keep_present
specials_of set = keep_present set positional

pub without_all : List Range → List ℕ → List Range
unfolding without
without_all set [] = set
without_all set (c ∷ cs) = without_all (without set c) cs

-- The variable `plain`: NUL stands in where nothing else may open the bracket.
pub or_nul : List ℕ → List Range → List Range
or_nul specials [] = if any (λ c. c == b']') specials then [] else (0, 0) ∷ []
or_nul specials (r ∷ plain) = r ∷ plain

pub plain_of : List Range → List Range
unfolding without_all sort_ranges or_nul specials_of
plain_of set = or_nul (specials_of set) (sort_ranges (without_all set positional))

pub render_range : Range → Text
render_range (a, b) = if a == b then a ∷ [] else a ∷ b'-' ∷ b ∷ []

pub if_special : List ℕ → ℕ → Text
if_special specials c = if any (λ d. d == c) specials then c ∷ [] else []

pub render_set : Bool → List ℕ → List Range → Text
unfolding render_range if_special
render_set negated specials plain =
    codes "["
    ++ (if negated then codes "!" else [])
    ++ if_special specials b']'
    ++ flat_map render_range plain
    ++ if_special specials b'!'
    ++ if_special specials b'^'
    ++ if_special specials b'-'
    ++ codes "]"

unfoldable pub render : Bool → List Range → Text
unfolding members_of specials_of plain_of render_set
render negated ranges =
    let set = members_of negated ranges in render_set negated (specials_of set) (plain_of set)
