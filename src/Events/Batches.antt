-- ===== src/Events/Batches.antt =====
-- packages/rust/src/lib.rs (`apply_events`, `apply_batch`, `hold`, `take_held`,
-- `apply_file_events_draining`): batches of file events, each applied in one transaction, and the
-- events that are held after a foreign key rejected their batch. Parameters: the file system's
-- `is_file` and `is_dir`, where `false` stands for an error too, and what a batch does to the rest of
-- the state (`Steps`). A lock is never poisoned.
pub mod Held
pub mod Given
pub mod Landed
pub mod Refused
use dirsql.Prelude.{
  ℕ, zero, suc, ◌+◌, ◌-◌, Bool, true, false, not, ◌&&◌, ◌||◌, Option, none, some, List, [], ◌∷◌,
  ◌++◌, Text, take, drop, length, if◌then◌else◌,
}
use dirsql.Watcher.{FilePath, FileEvent, created, modified, deleted, rescan}
use dirsql.Events.Links.{Link, push_new, through_links}

-- What the rest of the source does with the state `W` (the database, the tables' files), the pending
-- re-runs `P`, and the known links; `E` is a row event, `D` an error.
pub record Steps (W P E D : Type 0) : Type 0 where
  -- `foreign_key::begin` and `foreign_key::commit`: the state, and the error if there is one
  pub begin : W → W × Option D
  pub commit : W → W × Option D
  pub default : P
  -- `route_file_event`, `rescan`, `refresh_pending`
  pub route_file_event : FileEvent → List Link → P → W → (List Link × P × W) × List E
  pub rescan_tables : List Link → P → W → (List Link × P × W) × List E
  pub refresh_pending : P → W → W × List E
  pub is_error : E → Bool
  pub batch_error : D → E

pub data Applied (E : Type 0) : Type 0 where
  done : List E → Applied E
  rejected : List FileEvent → List E → Applied E

pub record State (W : Type 0) : Type 0 where
  pub links : List Link
  pub world : W
  pub held : List FileEvent

pub record Routed (W P E : Type 0) : Type 0 where
  pub links : List Link
  pub pending : P
  pub world : W
  pub out : List E
  pub applied : List FileEvent
  pub rescanned : Bool

abbrev is_rescan : FileEvent → Bool
is_rescan rescan = true
is_rescan _ = false

-- `hold`
unfoldable pub hold : List FileEvent → List FileEvent → List FileEvent
unfolding push_new
hold held [] = held
hold held (event ∷ events) = hold (push_new held event) events

module _ (is_file is_dir : FilePath → Bool) where
  state_now : FilePath → FileEvent
  state_now p = if is_file p || is_dir p then created p else deleted p

  unfoldable pub restated_now : FileEvent → FileEvent
  unfolding state_now
  restated_now (created p) = state_now p
  restated_now (modified p) = state_now p
  restated_now (deleted p) = state_now p
  restated_now rescan = rescan

  restated_from : List FileEvent → List FileEvent → List FileEvent
  unfolding push_new restated_now
  restated_from restated [] = restated
  restated_from restated (event ∷ held) =
      restated_from (push_new restated (restated_now event)) held

  -- `take_held`, which leaves nothing held.
  unfoldable pub take_held : List FileEvent → List FileEvent
  unfolding restated_from
  take_held held = restated_from [] held

  module _ {W P E D : Type 0} (steps : Steps W P E D) where
    route_one : FileEvent → Routed W P E → Routed W P E
    route_one event r =
        let ((links, pending, world), out) =
          steps.route_file_event event r.links r.pending r.world in
        record r { links = links; pending = pending; world = world; out = r.out ++ out }

    route_seen : List FileEvent → Routed W P E → Routed W P E
    unfolding route_one
    route_seen [] r = r
    route_seen (event ∷ events) r = route_seen events (route_one event r)

    -- The events that an event is seen as, with the links that it leaves, then their routing.
    route_through : List FileEvent × List Link → Routed W P E → Routed W P E
    unfolding route_seen
    route_through (events, links) r = route_seen events (record r { links = links })

    route_event : FileEvent → Routed W P E → Routed W P E
    unfolding route_through through_links
    route_event event r =
        let s = record r { applied = r.applied ++ event ∷ [] } in
        if is_rescan event
        then record s { rescanned = true }
        else route_through (through_links event r.links) s

    route_batch : List FileEvent → Routed W P E → Routed W P E
    unfolding route_event
    route_batch [] r = r
    route_batch (event ∷ events) r = route_batch events (route_event event r)

    -- The `while` loop: `late` is what its calls will return, and nothing from there on. The list that
    -- is left over comes back with the result.
    route_late : List (List FileEvent) → Routed W P E → Routed W P E × List (List FileEvent)
    unfolding route_batch
    route_late [] r = (r, [])
    route_late ([] ∷ late) r = (r, late)
    route_late ((event ∷ batch) ∷ late) r = route_late late (route_batch (event ∷ batch) r)

    pub route_all :
        List FileEvent → List (List FileEvent) → Routed W P E → Routed W P E × List (List FileEvent)
    unfolding route_late
    route_all events late r = route_late (events ∷ late) r

    pub after_rescan : Routed W P E → Routed W P E
    after_rescan r =
        let ((links, pending, world), out) = steps.rescan_tables r.links r.pending r.world in
        if r.rescanned
        then record r { links = links; pending = pending; world = world; out = r.out ++ out }
        else r

    pub after_refresh : Routed W P E → Routed W P E
    after_refresh r =
        let (world, out) = steps.refresh_pending r.pending r.world in
        record r { world = world; out = r.out ++ out }

    errors_of : List E → List E
    errors_of [] = []
    errors_of (event ∷ events) =
        let rest = errors_of events in if steps.is_error event then event ∷ rest else rest

    unfoldable pub outcome : Routed W P E → Option D → Applied E
    unfolding errors_of
    outcome r none = done r.out
    outcome r (some e) = rejected r.applied (errors_of r.out ++ steps.batch_error e ∷ [])

    unfoldable pub committed : State W → Routed W P E → State W × Applied E
    unfolding outcome
    committed s r =
        let (world, error) = steps.commit r.world in
        (record s { links = r.links; world = world }, outcome r error)

    unfoldable pub begun :
        State W
        → List FileEvent
        → List (List FileEvent)
        → W
        → Option D
        → (State W × Applied E) × List (List FileEvent)
    unfolding route_all after_rescan after_refresh committed
    begun s events late world (some e) =
        ((record s { world = world }, done (steps.batch_error e ∷ [])), late)
    begun s events late world none =
        let (r, left) = route_all events late (record {
          links = s.links;
          pending = steps.default;
          world = world;
          out = [];
          applied = [];
          rescanned = false;
        }) in
        (committed s (after_refresh (after_rescan r)), left)

    -- `apply_batch`: the state, the result, and what `late` has left.
    unfoldable pub apply_batch :
        List FileEvent
        → List (List FileEvent)
        → State W
        → (State W × Applied E) × List (List FileEvent)
    unfolding begun
    apply_batch events late s =
        let (world, error) = steps.begin s.world in begun s events late world error

    pub held_more : List FileEvent → State W → State W
    unfolding hold
    held_more events s = record s { held = hold s.held events }

    -- The `match` on a batch that is tried alone, where no event was held before it.
    pub alone : State W × Applied E → State W × List E
    unfolding held_more
    alone (s, done out) = (s, out)
    alone (s, rejected events errors) = (held_more events s, errors)

    -- The `match` on the fresh events' own batch; `errors` are of the batch that they were in with
    -- the held ones.
    pub fresh_alone : List E → State W × Applied E → State W × List E
    unfolding held_more
    fresh_alone errors (s, done out) = (s, drop (length errors - 1) errors ++ out)
    fresh_alone errors (s, rejected events others) = (held_more events s, errors)

    pub together : ℕ → State W × Applied E → State W × List E
    unfolding fresh_alone apply_batch held_more
    together held_len (s, done out) = (s, out)
    together held_len (s, rejected events errors) =
        fresh_alone errors
          (apply_batch (drop held_len events) [] (held_more (take held_len events) s)).0

    pub after_held :
        List FileEvent → List FileEvent → List (List FileEvent) → State W → State W × List E
    unfolding alone together apply_batch
    after_held [] events late s = alone (apply_batch events late s).0
    after_held (event ∷ held) events late s =
        together (suc (length held)) (apply_batch (event ∷ held ++ events) late s).0

    -- `apply_events`
    pub apply_events : List FileEvent → List (List FileEvent) → State W → State W × List E
    unfolding after_held take_held
    apply_events [] late s = (s, [])
    apply_events (event ∷ events) late s =
        after_held (take_held s.held) (event ∷ events) late (record s { held = [] })

    -- `apply_file_events_draining`: `outbox` is the row events that a query has left, which are taken.
    pub apply_file_events_draining :
        List E → List FileEvent → List (List FileEvent) → State W → State W × List E
    unfolding apply_events
    apply_file_events_draining outbox events late s =
        let (t, out) = apply_events events late s in (t, outbox ++ out)
