-- ===== src/PathGlob.antt =====
-- packages/rust/src/scanner.rs: the automaton by which a walk enters directories, and what a walk
-- makes of an entry. A compiled pattern is of type `P`, and `matches` is the glob library's match of
-- it against one name; a path is the list of its names.
pub mod Hidden
use mathlib.Core.List.{flat_map}
use dirsql.Prelude.{
  ℕ, zero, suc, ◌+◌, ◌-◌, Bool, true, false, not, ◌||◌, ◌&&◌, Option, none, some, List, [], ◌∷◌,
  ◌++◌, map, Text, any, all, get_elem?, leb, ◌==◌, if◌then◌else◌,
}

pub data Component (P : Type 0) : Type 0 where
  any_depth : Component P
  name : P → Component P
  dot_name : P → Component P
  end : Component P

pub data Kind : Type 0 where
  file dir linked_dir : Kind

-- `is_dot_named`
unfoldable pub is_dot_named : Text → Bool
is_dot_named [] = false
is_dot_named (c ∷ s) = c == b'.'

-- The loop of `collapse_separators`; `after` is whether what is written ends with a separator.
pub collapse_from : Bool → Text → Text
collapse_from after [] = []
collapse_from after (c ∷ s) =
    let kept = collapse_from (c == b'/') s in
    let dropped = collapse_from after s in
    if not (c == b'/') || not after then c ∷ kept else dropped

pub collapse_separators : Text → Text
unfolding collapse_from
collapse_separators word = collapse_from false word

insert_state : ℕ → List ℕ → List ℕ
insert_state i [] = i ∷ []
insert_state i (j ∷ states) = if leb i j then i ∷ j ∷ states else j ∷ insert_state i states

-- `sort_unstable`
pub sort_states : List ℕ → List ℕ
unfolding insert_state
sort_states [] = []
sort_states (i ∷ states) = insert_state i (sort_states states)

pub dedup : List ℕ → List ℕ
dedup [] = []
dedup (i ∷ []) = i ∷ []
dedup (i ∷ j ∷ states) = let rest = dedup (j ∷ states) in if i == j then rest else i ∷ rest

module _ {P : Type 0} (matches : P → Text → Bool) (components : List (Component P)) where
  is_any_depth : Option (Component P) → Bool
  is_any_depth (some any_depth) = true
  is_any_depth _ = false

  pub closure : List ℕ → List ℕ
  unfolding is_any_depth dedup sort_states
  closure states = dedup (
      sort_states (
        flat_map (λ i. if is_any_depth (get_elem? components i) then i ∷ (i + 1) ∷ [] else i ∷ [])
          states))

  -- The `match` of `step`: what one state adds to `next`.
  pub move : Option (Component P) → ℕ → Text → Kind → List ℕ
  unfolding is_dot_named
  move (some any_depth) i entry linked_dir = if is_dot_named entry then [] else (i + 1) ∷ []
  move (some any_depth) i entry kind = if is_dot_named entry then [] else i ∷ []
  move (some (name m)) i entry kind =
      if not (is_dot_named entry) && matches m entry then (i + 1) ∷ [] else []
  move (some (dot_name m)) i entry kind = if matches m entry then (i + 1) ∷ [] else []
  move (some end) i entry kind = []
  move none i entry kind = []

  pub moves : List ℕ → Text → Kind → List ℕ
  unfolding move
  moves [] entry kind = []
  moves (i ∷ states) entry kind =
      move (get_elem? components i) i entry kind ++ moves states entry kind

  pub step : List ℕ → Text → Kind → List ℕ
  unfolding moves closure
  step states entry kind = closure (moves states entry kind)

  -- The states after a path of directories: the `fold` of `spells_dot_names_of`.
  pub steps_of : List ℕ → List Text → List ℕ
  unfolding step
  steps_of states [] = states
  steps_of states (entry ∷ path) = steps_of (step states entry dir) path

  is_nonempty : List ℕ → Bool
  is_nonempty [] = false
  is_nonempty (i ∷ states) = true

  pub start : List ℕ → List ℕ
  unfolding closure
  start starts = closure starts

  pub spells_dot_names_of : List ℕ → List Text → Bool
  unfolding steps_of start is_nonempty
  spells_dot_names_of starts path = is_nonempty (steps_of (start starts) path)

  -- `files_match` is `is_match` of the path.
  pub is_match_unhidden : Bool → List ℕ → List Text → Bool
  unfolding spells_dot_names_of is_dot_named
  is_match_unhidden files_match starts path =
      files_match && (not (any is_dot_named path) || spells_dot_names_of starts path)

  may_match_at : Option (Component P) → Text → Bool
  may_match_at (some (name m)) entry = matches m entry
  may_match_at (some (dot_name m)) entry = matches m entry
  may_match_at (some any_depth) entry = true
  may_match_at (some end) entry = true
  may_match_at none entry = true

  -- The index `end - 1` of a word's last component is always there.
  pub may_match_name : List ℕ → Text → Bool
  unfolding may_match_at
  may_match_name ends entry = any (λ e. may_match_at (get_elem? components (e - 1)) entry) ends

  is_end : Option (Component P) → Bool
  is_end (some end) = true
  is_end _ = false

  pub reaches : List ℕ → Kind → Bool
  unfolding is_end
  reaches states file = any (λ i. is_end (get_elem? components i)) states
  reaches states dir = not (all (λ i. is_end (get_elem? components i)) states)
  reaches states linked_dir = not (all (λ i. is_end (get_elem? components i)) states)

  -- `relative_entries`: `.` and `..`, each with the states it leads to.
  pub relative_entries : Bool → List ℕ → List (Text × List ℕ)
  unfolding step reaches
  relative_entries false states = []
  relative_entries true states =
      let here = step states (b'.' ∷ []) dir in
      let above = step states (b'.' ∷ b'.' ∷ []) dir in
      (if reaches here dir then (b'.' ∷ [], here) ∷ [] else [])
      ++ (if reaches above dir then (b'.' ∷ b'.' ∷ [], above) ∷ [] else [])

pub record Stat : Type 0 where
  pub is_link : Bool
  pub is_dir : Bool
  pub is_file : Bool

pub data Seen : Type 0 where
  seen_dir seen_file seen_link seen_unknown seen_other : Seen

pub classify : Bool → Bool → Bool → Option Kind
classify true is_file linked = if linked then some linked_dir else some dir
classify false true linked = some file
classify false false linked = none

followed : Option Stat → Option Kind
unfolding classify
followed none = none
followed (some target) = classify target.is_dir target.is_file true

-- `kind_of` of an entry seen as a link; `target` is what a stat through the link reports.
link_kind : Bool → Option Stat → Option Kind
unfolding followed
link_kind true target = followed target
link_kind false target = none

-- `kind_of` of an entry of unknown kind, from what a stat of the entry itself reports.
unknown_kind : Bool → Option Stat → Option Stat → Option Kind
unfolding link_kind classify
unknown_kind follow_links none target = none
unknown_kind follow_links (some entry) target =
    if entry.is_link
    then link_kind follow_links target
    else classify entry.is_dir entry.is_file false

pub kind_of : Seen → Bool → (Bool → Option Stat) → Option Kind
unfolding link_kind unknown_kind
kind_of seen_dir follow_links stat = some dir
kind_of seen_file follow_links stat = some file
kind_of seen_other follow_links stat = none
kind_of seen_unknown follow_links stat = unknown_kind follow_links (stat false) (stat true)
kind_of seen_link follow_links stat = link_kind follow_links (stat true)
