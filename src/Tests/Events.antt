-- ===== src/Tests/Events.antt =====
-- Watched files, on small inputs.
use dirsql.Prelude.{
  ℕ, ◌+◌, max, ◌≤◌, ◌≡◌, Bool, true, false, ◌||◌, Option, none, some, List, [], ◌∷◌, ltb, arith,
  ◌==◌,
}
use dirsql.Watcher.{FilePath, path_eq, FileEvent, created, modified, deleted, rescan, event_eq}
use dirsql.Watcher.Tree.{WatchScope, WatchError, Watching, has_dir}
use dirsql.Events.Links.{Link, has_event, through_links, register_link}
use dirsql.Events.Links.Restated.{are_distinct, first_event, any_seen_as, through_links-events}
use dirsql.Events.Links.Known.{
  links_at, self_links, on_start, on_register, on_event, Registered-adds,
}
use dirsql.Events.Batches.{Steps, State, apply_batch, take_held}
use dirsql.Events.Batches.Held.{any_restated, take_held-events}
use dirsql.Events.Batches.Refused.{Refuses, apply_batch-Refuses}

abbrev dir : FilePath
dir = (1 ∷ []) ∷ []

abbrev file : FilePath
file = (1 ∷ []) ∷ (2 ∷ []) ∷ []

abbrev link : Link
link = record { path = (9 ∷ []) ∷ []; target = dir }

through_links-events_example :
    (first_event (through_links (deleted file) (link ∷ [])).0 ≡ some (deleted file))
    × (are_distinct (through_links (deleted file) (link ∷ [])).0 ≡ true)
    × ((e : FileEvent)
        → has_event e (through_links (deleted file) (link ∷ [])).0
          ≡ (event_eq (deleted file) e || any_seen_as (link ∷ []) (deleted file) e))
through_links-events_example = through_links-events (deleted file) (link ∷ [])

abbrev to_dir : FilePath → FilePath
to_dir path = dir

-- A link that was there twice at the start, and is registered again.
abbrev twice : List Link
twice = link ∷ link ∷ []

abbrev links : List Link
links = (through_links (modified file) (register_link to_dir ((9 ∷ []) ∷ []) twice)).1

Registered-adds_example :
    (links_at ((9 ∷ []) ∷ []) links ≤ max 1 (links_at ((9 ∷ []) ∷ []) twice))
    × (self_links ((9 ∷ []) ∷ []) links ≤ self_links ((9 ∷ []) ∷ []) twice)
Registered-adds_example = Registered-adds twice links ((9 ∷ []) ∷ []) (
    on_event (modified file) (register_link to_dir ((9 ∷ []) ∷ []) twice)
      (on_register to_dir ((9 ∷ []) ∷ []) twice on_start))

abbrev is_file : FilePath → Bool
is_file p = path_eq p file

abbrev is_dir : FilePath → Bool
is_dir p = path_eq p dir

take_held-events_example :
    (are_distinct (take_held is_file is_dir (modified file ∷ deleted file ∷ rescan ∷ [])) ≡ true)
    × ((e : FileEvent)
        → has_event e (take_held is_file is_dir (modified file ∷ deleted file ∷ rescan ∷ []))
          ≡ any_restated is_file is_dir e (modified file ∷ deleted file ∷ rescan ∷ []))
    × ((p : FilePath)
        → ((is_file p || is_dir p) ≡ false
            → has_event
                (created p)
                (take_held is_file is_dir (modified file ∷ deleted file ∷ rescan ∷ []))
              ≡ false)
          × ((is_file p || is_dir p) ≡ true
              → has_event
                  (deleted p)
                  (take_held is_file is_dir (modified file ∷ deleted file ∷ rescan ∷ []))
                ≡ false)
          × (has_event
                (modified p)
                (take_held is_file is_dir (modified file ∷ deleted file ∷ rescan ∷ []))
              ≡ false))
take_held-events_example =
    take_held-events is_file is_dir (modified file ∷ deleted file ∷ rescan ∷ [])

-- A database whose foreign keys reject every batch.
abbrev rejecting : Steps ℕ ℕ ℕ ℕ
rejecting = record {
  begin = λ w. (w, none);
  commit = λ w. (w, some 7);
  default = 0;
  route_file_event = λ event links pending w. ((links, pending, w + 1), 3 ∷ []);
  rescan_tables = λ links pending w. ((links, pending, w + 1), []);
  refresh_pending = λ pending w. (w, []);
  is_error = λ e. e == 7;
  batch_error = λ d. d;
}

abbrev before : State ℕ
before = record { links = []; world = 0; held = modified dir ∷ [] }

-- A system that is the list of its watches.
abbrev walk_all : List FilePath → WatchScope ℕ → FilePath → List FilePath
walk_all s scope start = dir ∷ file ∷ []

abbrev scope : WatchScope ℕ
scope = record { root = dir; ignore = 0 }

abbrev reaches : FilePath → ℕ → Bool
reaches p ignore = true

abbrev watch : FilePath → List FilePath → List FilePath × Option WatchError
watch p s = (p ∷ s, none)

abbrev HasWatch : List FilePath → FilePath → Type 0
HasWatch s d = has_dir d s ≡ true

abbrev unwatched : Watching (List FilePath)
unwatched = record { system = dir ∷ []; watched = dir ∷ []; found_new = false; failure = none }

abbrev reporting : Steps ℕ ℕ ℕ ℕ
reporting = record {
  begin = λ w. (w, none);
  commit = λ w. (w, some 7);
  default = 0;
  route_file_event = λ event links pending w. ((links, pending, w + 1), 3 ∷ 8 ∷ []);
  rescan_tables = λ links pending w. ((links, pending, w + 1), []);
  refresh_pending = λ pending w. (w, []);
  is_error = λ e. ltb 6 e;
  batch_error = λ d. d + 7;
}

reports_errors : (d : ℕ) → reporting.is_error (reporting.batch_error d) ≡ true
reports_errors d = ground arith

apply_batch-Refuses_example :
    Refuses is_file is_dir reporting reports_errors
      ((created file ∷ []) ∷ (deleted file ∷ []) ∷ [])
      (apply_batch is_file is_dir reporting
        (created file ∷ [])
        ((deleted file ∷ []) ∷ [])
        before).0.1
apply_batch-Refuses_example =
    apply_batch-Refuses is_file is_dir reporting reports_errors (created file ∷ [])
      ((deleted file ∷ []) ∷ []) before
