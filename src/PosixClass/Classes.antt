-- ===== src/PosixClass/Classes.antt =====
-- packages/rust/src/posix_class.rs: the elements of a bracket, and the classes. A cursor is the text
-- from it on.
pub mod Shorter
use mathlib.Core.Option
use mathlib.Core.List.{flat_map}
use dirsql.Prelude.{
  ℕ, zero, suc, ◌+◌, ◌-◌, min, max, Bool, true, false, not, ◌||◌, ◌&&◌, Option, none, some, List,
  [], ◌∷◌, ◌++◌, map, Text, codes, text_eq, any, length, take, drop, leb, ltb, ◌==◌, get_elem?,
  if◌then◌else◌,
}
use dirsql.CollatingSymbol.{collating_symbol}

abbrev pub Range : Type 0
Range = ℕ × ℕ

-- What an element parser returns: the element, and the cursor behind it.
class_name : Text → Option (Text × Text)
class_name [] = none
class_name (c ∷ []) = none
class_name (c ∷ d ∷ s) =
    let onward = Option.map (λ r. (c ∷ r.0, r.1)) (class_name (d ∷ s)) in
    if (c == b':') && (d == b']') then some ([], s) else if c == b']' then none else onward

unfoldable pub class_at : Text → Option (Text × Text)
unfolding class_name
class_at (a ∷ b ∷ s) = if (a == b'[') && (b == b':') then class_name s else none
class_at _ = none

unfoldable pub equivalence_at : Text → Option (ℕ × Text)
equivalence_at (a ∷ b ∷ c ∷ d ∷ e ∷ s) =
    if (a == b'[') && (b == b'=') && (d == b'=') && (e == b']') then some (c, s) else none
equivalence_at _ = none

-- The name up to the first `.]`, and the cursor behind that.
symbol_name : Text → Option (Text × Text)
symbol_name [] = none
symbol_name (c ∷ []) = none
symbol_name (c ∷ d ∷ s) =
    let onward = Option.map (λ r. (c ∷ r.0, r.1)) (symbol_name (d ∷ s)) in
    if (c == b'.') && (d == b']') then some ([], s) else onward

symbol_of : Option (Text × Text) → Option ℕ × Text
symbol_of none = (none, [])
symbol_of (some (name, s)) = (collating_symbol name, s)

unfoldable pub symbol_at : Text → Option (Option ℕ × Text)
unfolding symbol_name symbol_of
symbol_at (a ∷ b ∷ s) =
    if (a == b'[') && (b == b'.') then some (symbol_of (symbol_name s)) else none
symbol_at _ = none

abbrev pub unicode_classes : List (Text × Text)
unicode_classes =
    (codes "alnum", codes "[\\p{Alphabetic}\\p{Nd}]")
    ∷ (codes "alpha", codes "[\\p{Alphabetic}\\p{Nd}--0-9]")
    ∷ (codes "blank", codes "[\\p{Zs}\\t--\\u{a0}\\u{2007}\\u{202f}]")
    ∷ (codes "cntrl", codes "[\\p{Cc}\\u{2028}\\u{2029}]")
    ∷ (codes "graph", codes "[[^\\p{White_Space}\\p{Cc}\\p{Unassigned}]\\u{a0}\\u{2007}\\u{202f}]")
    ∷ (codes "lower", codes "[\\p{Lowercase}\\u{1c5}\\u{1c8}\\u{1cb}\\u{1f2}]")
    ∷ (codes "print", codes "[^\\p{Cc}\\p{Unassigned}\\u{2028}\\u{2029}]")
    ∷ (
      codes "punct",
      codes
          "[[[^\\p{White_Space}\\p{Cc}\\p{Unassigned}]\\u{a0}\\u{2007}\\u{202f}]--[\\p{Alphabetic}\\p{Nd}]]",
    )
    ∷ (codes "space", codes "[\\p{White_Space}--\\u{a0}\\u{2007}\\u{202f}\\u{85}]")
    ∷ (codes "upper", codes "[\\p{Uppercase}\\p{Lt}]")
    ∷ (codes "word", codes "[\\p{Alphabetic}\\p{Nd}_]")
    ∷ []

abbrev pub marker_base : ℕ
marker_base = 0xFDD0

abbrev pub marker : ℕ → ℕ
marker index = marker_base + index

-- The `find` of `class_regex`, from a class on.
regex_from : ℕ → ℕ → List (Text × Text) → Option Text
regex_from index c [] = none
regex_from index c ((name, regex) ∷ classes) =
    if marker index == c
    then some (codes "[" ++ regex ++ codes "--/]")
    else regex_from (suc index) c classes

pub class_regex : ℕ → Option Text
unfolding regex_from
class_regex c = regex_from 0 c unicode_classes

-- The `position` of `class_ranges`, as the range of its marker.
marker_range : ℕ → Text → List (Text × Text) → List Range
marker_range index name [] = []
marker_range index name ((known, regex) ∷ classes) =
    if text_eq known name
    then (marker index, marker index) ∷ []
    else marker_range (suc index) name classes

unfoldable pub class_ranges : Text → List Range
unfolding marker_range
class_ranges name =
    if text_eq name (codes "ascii")
    then (0, 0x7F) ∷ []
    else if text_eq name (codes "digit")
    then (b'0', b'9') ∷ []
    else if text_eq name (codes "xdigit")
    then (b'0', b'9') ∷ (b'A', b'F') ∷ (b'a', b'f') ∷ []
    else marker_range 0 name unicode_classes
