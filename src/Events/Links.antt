-- ===== src/Events/Links.antt =====
-- packages/rust/src/lib.rs (`Link`, `through_links`, `below_a_link`, `register_link`): the symlinked
-- directories that a change is seen through. `canonical` is the file system's `canonical_root`.
pub mod Restated
pub mod Known
use dirsql.Prelude.{
  ℕ, Bool, true, false, not, ◌&&◌, ◌||◌, Option, none, some, List, [], ◌∷◌, ◌++◌, Text, text_eq,
  if◌then◌else◌,
}
use dirsql.Watcher.{FilePath, path_eq, FileEvent, created, modified, deleted, rescan, event_eq}

-- `strip_prefix`
unfoldable pub strip_prefix : FilePath → FilePath → Option FilePath
strip_prefix p [] = some p
strip_prefix [] (b ∷ q) = none
strip_prefix (a ∷ p) (b ∷ q) = if text_eq a b then strip_prefix p q else none

is_stripped : Option FilePath → Bool
is_stripped none = false
is_stripped (some rest) = true

-- `starts_with`
unfoldable pub is_under : FilePath → FilePath → Bool
unfolding strip_prefix is_stripped
is_under p q = is_stripped (strip_prefix p q)

pub record Link : Type 0 where
  pub path : FilePath
  pub target : FilePath

-- `Link::at`
unfoldable pub link_at : (FilePath → FilePath) → FilePath → Link
link_at canonical path = record { path = path; target = canonical path }

below_or_around :
    Link → FilePath → (FilePath → FileEvent) → Bool → Option FilePath → Option FileEvent
unfolding is_under
below_or_around link path kind around (some rest) = some (kind (link.path ++ rest))
below_or_around link path kind around none =
    if around && is_under link.target path then some (kind link.path) else none

-- `Link::restate`
unfoldable pub restate : Link → FileEvent → Option FileEvent
unfolding below_or_around strip_prefix
restate link (created p) = below_or_around link p created true (strip_prefix p link.target)
restate link (modified p) = below_or_around link p modified false (strip_prefix p link.target)
restate link (deleted p) = below_or_around link p deleted true (strip_prefix p link.target)
restate link rescan = none

-- `contains`
unfoldable pub has_event : FileEvent → List FileEvent → Bool
unfolding event_eq
has_event e [] = false
has_event e (f ∷ events) = event_eq f e || has_event e events

-- `push`, unless the event is there.
unfoldable pub push_new : List FileEvent → FileEvent → List FileEvent
unfolding has_event
push_new events e = if has_event e events then events else events ++ e ∷ []

add_restated : List FileEvent → Option FileEvent → List FileEvent
unfolding push_new
add_restated events none = events
add_restated events (some e) = push_new events e

-- The loop of `through_links`.
unfoldable pub seen_through : FileEvent → List Link → List FileEvent → List FileEvent
unfolding add_restated restate
seen_through event [] events = events
seen_through event (link ∷ links) events =
    seen_through event links (add_restated events (restate link event))

forget_below : FilePath → List Link → List Link
unfolding is_under
forget_below gone [] = []
forget_below gone (link ∷ links) =
    if is_under link.path gone then forget_below gone links else link ∷ forget_below gone links

-- The links that an event leaves.
unfoldable pub kept_links : FileEvent → List Link → List Link
unfolding forget_below
kept_links (deleted gone) links = forget_below gone links
kept_links _ links = links

-- `through_links`: the events, and the links afterwards.
unfoldable pub through_links : FileEvent → List Link → List FileEvent × List Link
unfolding seen_through kept_links
through_links event links = (seen_through event links (event ∷ []), kept_links event links)

pub below_a_link : FilePath → List Link → Bool
unfolding path_eq is_under
below_a_link dir [] = false
below_a_link dir (link ∷ links) =
    (not (path_eq dir link.path) && is_under dir link.path) || below_a_link dir links

without_path : FilePath → List Link → List Link
unfolding path_eq
without_path path [] = []
without_path path (link ∷ links) =
    if path_eq link.path path then without_path path links else link ∷ without_path path links

pub register_link : (FilePath → FilePath) → FilePath → List Link → List Link
unfolding link_at without_path path_eq
register_link canonical path links =
    let link = link_at canonical path in
    if path_eq link.target link.path then links else without_path link.path links ++ link ∷ []
