-- ===== src/Watcher.antt =====
-- packages/rust/src/watcher.rs: the events of a watched tree. A path is its components.
pub mod Tree
use dirsql.Prelude.{
  ℕ, Bool, true, false, ◌&&◌, Option, none, some, List, [], ◌∷◌, ◌++◌, ◌≡◌, ◌↔◌, Text, text_eq,
  text_eq_iff, if◌then◌else◌, refl, ap, sym, arith,
}

abbrev pub FilePath : Type 0
FilePath = List Text

-- `==` of paths
unfoldable pub path_eq : FilePath → FilePath → Bool
path_eq [] [] = true
path_eq [] (b ∷ q) = false
path_eq (a ∷ p) [] = false
path_eq (a ∷ p) (b ∷ q) = text_eq a b && path_eq p q

pub data FileEvent : Type 0 where
  created : FilePath → FileEvent
  modified : FilePath → FileEvent
  deleted : FilePath → FileEvent
  rescan : FileEvent

-- `derive(PartialEq)`
unfoldable pub event_eq : FileEvent → FileEvent → Bool
unfolding path_eq
event_eq (created p) (created q) = path_eq p q
event_eq (modified p) (modified q) = path_eq p q
event_eq (deleted p) (deleted q) = path_eq p q
event_eq rescan rescan = true
event_eq _ _ = false

pub path_eq_iff : (p q : FilePath) → (path_eq p q ≡ true) ↔ (p ≡ q)
unfolding path_eq
path_eq_iff [] [] = ground arith
path_eq_iff [] (b ∷ q) = ground arith
path_eq_iff (a ∷ p) [] = ground arith
path_eq_iff (a ∷ p) (b ∷ q) = ground (arith, text_eq_iff a b, path_eq_iff p q)

pub event_eq_iff : (e f : FileEvent) → (event_eq e f ≡ true) ↔ (e ≡ f)
unfolding event_eq
event_eq_iff (created p) (created q) = ground (arith, path_eq_iff p q)
event_eq_iff (created p) (modified q) = ground arith
event_eq_iff (created p) (deleted q) = ground arith
event_eq_iff (created p) rescan = ground arith
event_eq_iff (modified p) (created q) = ground arith
event_eq_iff (modified p) (modified q) = ground (arith, path_eq_iff p q)
event_eq_iff (modified p) (deleted q) = ground arith
event_eq_iff (modified p) rescan = ground arith
event_eq_iff (deleted p) (created q) = ground arith
event_eq_iff (deleted p) (modified q) = ground arith
event_eq_iff (deleted p) (deleted q) = ground (arith, path_eq_iff p q)
event_eq_iff (deleted p) rescan = ground arith
event_eq_iff rescan (created q) = ground arith
event_eq_iff rescan (modified q) = ground arith
event_eq_iff rescan (deleted q) = ground arith
event_eq_iff rescan rescan = ground arith

-- The kinds of `notify`'s events that `translate_event` tells apart.
pub data RawKind : Type 0 where
  create : RawKind
  rename_from : RawKind
  rename_both : RawKind
  rename_other : RawKind
  modify : RawKind
  remove : RawKind
  other : RawKind

pub record RawEvent : Type 0 where
  pub kind : RawKind
  pub paths : List FilePath
  pub need_rescan : Bool

translate : RawKind → FilePath → Option FileEvent
translate create p = some (created p)
translate rename_from p = some (deleted p)
translate rename_both p = none
translate rename_other p = some (created p)
translate modify p = some (modified p)
translate remove p = some (deleted p)
translate other p = none

push_some : Option FileEvent → List FileEvent → List FileEvent
push_some none events = events
push_some (some e) events = e ∷ events

translate_paths : RawKind → List FilePath → List FileEvent
unfolding translate push_some
translate_paths kind [] = []
translate_paths kind (p ∷ paths) = push_some (translate kind p) (translate_paths kind paths)

pub translate_event : RawEvent → List FileEvent
unfolding translate_paths
translate_event event =
    translate_paths event.kind event.paths ++ (if event.need_rescan then rescan ∷ [] else [])
