-- ===== src/Events/Links/Restated.antt =====
-- packages/rust/src/lib.rs (`restate`, `through_links`): what an event is seen as.
use dirsql.Prelude.{
  ◌≡◌, refl, sym, ap, ◌∙◌, inl, inr, Bool, true, false, not, ◌&&◌, ◌||◌, Option, none, some, List,
  [], ◌∷◌, ◌++◌, Text, text_eq_refl, arith, Bool-cases, Option-cases,
}
use dirsql.Watcher.{FilePath, FileEvent, created, modified, deleted, event_eq, event_eq_iff}
use dirsql.Events.Links.{
  strip_prefix, is_stripped, is_under, Link, below_or_around, restate, has_event, push_new,
  add_restated, seen_through, through_links,
}

strip-append : (q rest : FilePath) → strip_prefix (q ++ rest) q ≡ some rest
unfolding strip_prefix
strip-append [] [] = refl
strip-append [] (a ∷ rest) = refl
strip-append (b ∷ q) rest = rw (text_eq_refl b) (strip-append q rest)

strip-above :
    (above : FilePath) (a : Text) (more : FilePath) → strip_prefix above (above ++ a ∷ more) ≡ none
unfolding strip_prefix
strip-above [] a more = refl
strip-above (b ∷ above) a more = rw (text_eq_refl b) (strip-above above a more)

starts-append : (q rest : FilePath) → is_under (q ++ rest) q ≡ true
unfolding is_under is_stripped
starts-append q rest = rw (strip-append q rest) refl

-- A change at or below the target of a link is the same change at or below the link.
pub restate-below :
    (link : Link) (rest : FilePath)
    → (restate link (created (link.target ++ rest)) ≡ some (created (link.path ++ rest)))
      × (restate link (modified (link.target ++ rest)) ≡ some (modified (link.path ++ rest)))
      × (restate link (deleted (link.target ++ rest)) ≡ some (deleted (link.path ++ rest)))
unfolding restate below_or_around
restate-below link rest = rw (strip-append link.target rest) (refl, refl, refl)

-- A directory above the target that appears or leaves is the link doing so; one that is only modified
-- is nothing to the link.
pub restate-above :
    (link : Link) (above : FilePath) (a : Text) (more : FilePath)
    → link.target ≡ above ++ a ∷ more
    → (restate link (created above) ≡ some (created link.path))
      × (restate link (modified above) ≡ none)
      × (restate link (deleted above) ≡ some (deleted link.path))
unfolding restate below_or_around
restate-above link above a more e =
    rw (e, strip-above above a more, starts-append above (a ∷ more)) (refl, refl, refl)

-- Whether the link sees the event as another.
pub is_seen_as : Option FileEvent → FileEvent → Bool
is_seen_as none e = false
is_seen_as (some f) e = event_eq f e

abbrev pub any_seen_as : List Link → FileEvent → FileEvent → Bool
any_seen_as [] event e = false
any_seen_as (link ∷ links) event e = is_seen_as (restate link event) e || any_seen_as links event e

abbrev pub are_distinct : List FileEvent → Bool
are_distinct [] = true
are_distinct (e ∷ events) = not (has_event e events) && are_distinct events

has_event-append :
    (e f : FileEvent) (events : List FileEvent)
    → has_event e (events ++ f ∷ []) ≡ (has_event e events || event_eq f e)
unfolding has_event
has_event-append e f [] = ground arith
has_event-append e f (g ∷ events) = ground (arith, has_event-append e f events)

event_eq_sym : (e f : FileEvent) → event_eq e f ≡ event_eq f e
event_eq_sym e f = ground (arith, event_eq_iff e f, event_eq_iff f e)

has_event-same :
    (e f : FileEvent) (events : List FileEvent)
    → event_eq f e ≡ true
    → has_event f events ≡ has_event e events
has_event-same e f events same = ap (λ g. has_event g events) ((event_eq_iff f e).0 same)

pub has_event-push :
    (e f : FileEvent) (events : List FileEvent)
    → has_event e (push_new events f) ≡ (has_event e events || event_eq f e)
unfolding push_new
has_event-push e f events = elim (Bool-cases (has_event f events)) [
  | inl there ↦ rw there (
      present (event_eq f e) (has_event e events)
        (λ same. sym (has_event-same e f events same) ∙ there))
  | inr absent ↦ rw absent (has_event-append e f events)
]
  where
    present : (b c : Bool) → (b ≡ true → c ≡ true) → c ≡ (c || b)
    present true c h = rw (h refl) refl
    present false true h = refl
    present false false h = refl

distinct-append :
    (events : List FileEvent) (f : FileEvent)
    → has_event f events ≡ false
    → are_distinct events ≡ true
    → are_distinct (events ++ f ∷ []) ≡ true
unfolding has_event
distinct-append [] f h d = refl
distinct-append (e ∷ events) f h d =
    ground (arith, h, d, has_event-append e f events, event_eq_sym e f, distinct-append events f)

pub distinct-push :
    (events : List FileEvent) (f : FileEvent)
    → are_distinct events ≡ true
    → are_distinct (push_new events f) ≡ true
unfolding push_new
distinct-push events f d = elim (Bool-cases (has_event f events)) [
  | inl there ↦ rw there d
  | inr absent ↦ rw absent (distinct-append events f absent d)
]

has_event-add :
    (e : FileEvent) (o : Option FileEvent) (events : List FileEvent)
    → has_event e (add_restated events o) ≡ (has_event e events || is_seen_as o e)
unfolding add_restated is_seen_as
has_event-add e none events = ground arith
has_event-add e (some f) events = has_event-push e f events

distinct-add :
    (events : List FileEvent) (o : Option FileEvent)
    → are_distinct events ≡ true
    → are_distinct (add_restated events o) ≡ true
unfolding add_restated
distinct-add events none d = d
distinct-add events (some f) d = distinct-push events f d

seen_through-events :
    (event : FileEvent) (links : List Link) (events : List FileEvent)
    → are_distinct events ≡ true
    → (are_distinct (seen_through event links events) ≡ true)
      × ((e : FileEvent)
          → has_event e (seen_through event links events)
            ≡ (has_event e events || any_seen_as links event e))
unfolding seen_through
seen_through-events event [] events d = (d, λ e. ground arith)
seen_through-events event (link ∷ links) events d =
    let added = add_restated events (restate link event) in
    let (distinct, has) =
      seen_through-events event links added (distinct-add events (restate link event) d) in
    (distinct, λ e. ground (arith, has e, has_event-add e (restate link event) events))

abbrev pub first_event : List FileEvent → Option FileEvent
first_event [] = none
first_event (e ∷ events) = some e

first-push :
    (e f : FileEvent) (events : List FileEvent)
    → first_event events ≡ some e
    → first_event (push_new events f) ≡ some e
unfolding push_new
first-push e f events h = elim (Bool-cases (has_event f events)) [
  | inl there ↦ rw there h
  | inr absent ↦ rw absent (kept events h)
]
  where
    kept :
        (events : List FileEvent)
        → first_event events ≡ some e
        → first_event (events ++ f ∷ []) ≡ some e
    kept [] h = ground (arith, h)
    kept (g ∷ events) h = h

seen_through-first :
    (event e : FileEvent) (links : List Link) (events : List FileEvent)
    → first_event events ≡ some e
    → first_event (seen_through event links events) ≡ some e
unfolding seen_through add_restated
seen_through-first event e [] events h = h
seen_through-first event e (link ∷ links) events h = elim (Option-cases (restate link event)) [
  | inl unseen ↦ rw unseen (seen_through-first event e links events h)
  | inr (f, seen) ↦
      rw seen (seen_through-first event e links (push_new events f) (first-push e f events h))
]

-- The events that one event is seen as: the event itself comes first, none comes twice, and besides
-- it they are those that some link restates it as, and no others.
pub through_links-events :
    (event : FileEvent) (links : List Link)
    → (first_event (through_links event links).0 ≡ some event)
      × (are_distinct (through_links event links).0 ≡ true)
      × ((e : FileEvent)
          → has_event e (through_links event links).0
            ≡ (event_eq event e || any_seen_as links event e))
unfolding through_links has_event
through_links-events event links =
    let (distinct, has) = seen_through-events event links (event ∷ []) refl in
    (seen_through-first event event links (event ∷ []) refl, distinct, λ e. ground (arith, has e))
