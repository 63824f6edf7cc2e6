-- ===== src/PathGlob/Hidden.antt =====
-- packages/rust/src/scanner.rs: which entries a walk takes.
use mathlib.Core.List.{flat_map}
use dirsql.Prelude.{
  ℕ, ◌≡◌, refl, ap, ◌∙◌, Bool, true, false, not, ◌&&◌, Option, none, some, List, [], ◌∷◌, Text, any,
  get_elem?, ◌==◌, arith, Bool-cases, inl, inr,
}
use dirsql.PathGlob.{
  Component, any_depth, name, dot_name, end, Kind, file, dir, linked_dir, is_dot_named,
  collapse_from, collapse_separators, closure, move, moves, step, Stat, Seen, seen_dir, seen_file,
  seen_link, seen_unknown, seen_other, classify, link_kind, unknown_kind, kind_of,
}

module _ {P : Type 0} (matches : P → Text → Bool) (components : List (Component P)) where
  -- The component is spelled with a leading dot, and its pattern matches the name.
  abbrev pub spells : Option (Component P) → Text → Bool
  spells (some (dot_name m)) entry = matches m entry
  spells _ entry = false

  move-hidden :
      (o : Option (Component P)) (i : ℕ) (entry : Text) (kind : Kind)
      → is_dot_named entry ≡ true
      → spells o entry ≡ false
      → move matches components o i entry kind ≡ []
  unfolding move
  move-hidden (some any_depth) i entry file h g = rw h refl
  move-hidden (some any_depth) i entry dir h g = rw h refl
  move-hidden (some any_depth) i entry linked_dir h g = rw h refl
  move-hidden (some (name m)) i entry kind h g = rw h refl
  move-hidden (some (dot_name m)) i entry kind h g = rw g refl
  move-hidden (some end) i entry kind h g = refl
  move-hidden none i entry kind h g = refl

  moves-hidden :
      (states : List ℕ) (entry : Text) (kind : Kind)
      → is_dot_named entry ≡ true
      → any (λ i. spells (get_elem? components i) entry) states ≡ false
      → moves matches components states entry kind ≡ []
  unfolding moves
  moves-hidden [] entry kind h g = refl
  moves-hidden (i ∷ states) entry kind h g =
      rw
        (
          move-hidden (get_elem? components i) i entry kind h (ground (arith, g)),
          moves-hidden states entry kind h (ground (arith, g)),
        )
        refl

  -- A dot-named entry leads nowhere unless one of the components that may come next is spelled with a leading
  -- dot and matches it: no wildcard takes a hidden entry.
  pub step-hidden :
      (states : List ℕ) (entry : Text) (kind : Kind)
      → is_dot_named entry ≡ true
      → any (λ i. spells (get_elem? components i) entry) states ≡ false
      → step matches components states entry kind ≡ []
  unfolding step closure flat_map
  step-hidden states entry kind h g = rw (moves-hidden states entry kind h g) refl

-- No two separators follow each other; `after` is whether one came just before.
abbrev pub is_single : Bool → Text → Bool
is_single after [] = true
is_single after (c ∷ s) = not (after && (c == b'/')) && is_single (c == b'/') s

collapse_from-single : (after : Bool) (s : Text) → is_single after (collapse_from after s) ≡ true
unfolding collapse_from
collapse_from-single after [] = refl
collapse_from-single after (c ∷ s) = elim (Bool-cases (c == b'/')) [
  | inl slash ↦ elim (Bool-cases after) [
    | inl was ↦ rw (slash, was) (collapse_from-single true s)
    | inr was ↦ rw (slash, was) (ground (arith, slash, collapse_from-single true s))
  ]
  | inr other ↦ rw other (ground (arith, other, collapse_from-single false s))
]

collapse_from-fixed :
    (after : Bool) (s : Text) → is_single after s ≡ true → collapse_from after s ≡ s
unfolding collapse_from
collapse_from-fixed after [] h = refl
collapse_from-fixed after (c ∷ s) h = ground (arith, h, collapse_from-fixed (c == b'/') s)

-- A collapsed word has no two separators in a row, and collapsing it again changes nothing.
pub collapse_separators-single :
    (word : Text)
    → (is_single false (collapse_separators word) ≡ true)
      × (collapse_separators (collapse_separators word) ≡ collapse_separators word)
unfolding collapse_separators
collapse_separators-single word =
    let single = collapse_from-single false word in
    (single, collapse_from-fixed false (collapse_from false word) single)

abbrev pub is_linked : Option Kind → Bool
is_linked (some linked_dir) = true
is_linked _ = false

classify-unlinked : (is_dir is_file : Bool) → is_linked (classify is_dir is_file false) ≡ false
unfolding classify
classify-unlinked true is_file = refl
classify-unlinked false true = refl
classify-unlinked false false = refl

unknown_kind-unlinked :
    (a c d : Option Stat)
    → (is_linked (unknown_kind false a c) ≡ false)
      × (unknown_kind false a c ≡ unknown_kind false a d)
unfolding unknown_kind link_kind
unknown_kind-unlinked none c d = (refl, refl)
unknown_kind-unlinked (some entry) c d = elim (Bool-cases entry.is_link) [
  | inl link ↦ (rw link refl, rw link refl)
  | inr real ↦ (rw real (classify-unlinked entry.is_dir entry.is_file), rw real refl)
]

-- A walk that does not follow links takes no directory as a linked one, whatever a stat reports,
-- and reports the same whatever a stat through the link would.
pub kind_of-unfollowed :
    (seen : Seen) (stat other : Bool → Option Stat)
    → stat false ≡ other false
    → (is_linked (kind_of seen false stat) ≡ false)
      × (kind_of seen false stat ≡ kind_of seen false other)
unfolding kind_of link_kind unknown_kind classify
kind_of-unfollowed seen_dir stat other e = (refl, refl)
kind_of-unfollowed seen_file stat other e = (refl, refl)
kind_of-unfollowed seen_other stat other e = (refl, refl)
kind_of-unfollowed seen_link stat other e = (refl, refl)
kind_of-unfollowed seen_unknown stat other e =
    let same = unknown_kind-unlinked (stat false) (stat true) (other true) in
    (same.0, same.1 ∙ ap (λ entry. unknown_kind false entry (other true)) e)
