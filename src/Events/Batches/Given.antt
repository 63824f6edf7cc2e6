-- ===== src/Events/Batches/Given.antt =====
-- packages/rust/src/lib.rs (`apply_batch`): a rejected batch gives back all the events that
-- arrived, in order.
use dirsql.Prelude.{
  ◌≡◌, refl, sym, ap, ◌∙◌, Bool, true, false, Option, none, some, List, [], ◌∷◌, ◌++◌, append-nil,
  append_assoc, if◌then◌else◌,
}
use dirsql.Watcher.{FilePath, FileEvent}
use dirsql.Events.Links.{through_links}
use dirsql.Events.Batches.{
  Steps, State, Applied, done, rejected, Routed, is_rescan, route_one, route_seen, route_through,
  route_event, route_batch, route_late, route_all, after_rescan, after_refresh, outcome, committed,
  begun, apply_batch,
}

-- The events of a batch with those that arrive while it is routed: the batches up to the first empty
-- one.
abbrev pub arrived : List (List FileEvent) → List FileEvent
arrived [] = []
arrived ([] ∷ late) = []
arrived ((event ∷ batch) ∷ late) = (event ∷ batch) ++ arrived late

module _ (is_file is_dir : FilePath → Bool) {W P E D : Type 0} (steps : Steps W P E D) where
  route_seen-applied :
      (events : List FileEvent) (r : Routed W P E)
      → (route_seen is_file is_dir steps events r).applied ≡ r.applied
  unfolding route_seen route_one
  route_seen-applied [] r = refl
  route_seen-applied (event ∷ events) r =
      route_seen-applied events (route_one is_file is_dir steps event r)

  if-applied :
      (b : Bool) (r s : Routed W P E) (l : List FileEvent)
      → r.applied ≡ l
      → s.applied ≡ l
      → (if b then r else s).applied ≡ l
  if-applied true r s l h g = h
  if-applied false r s l h g = g

  route_event-applied :
      (event : FileEvent) (r : Routed W P E)
      → (route_event is_file is_dir steps event r).applied ≡ r.applied ++ event ∷ []
  unfolding route_event route_through
  route_event-applied event r = if-applied (is_rescan event) _ _ (r.applied ++ event ∷ []) refl (
      route_seen-applied (through_links event r.links).0
        (record r { applied = r.applied ++ event ∷ []; links = (through_links event r.links).1 }))

  route_batch-applied :
      (events : List FileEvent) (r : Routed W P E)
      → (route_batch is_file is_dir steps events r).applied ≡ r.applied ++ events
  unfolding route_batch
  route_batch-applied [] r = sym (append-nil r.applied)
  route_batch-applied (event ∷ events) r =
      route_batch-applied events (route_event is_file is_dir steps event r)
      ∙ ap (λ l. l ++ events) (route_event-applied event r)
      ∙ append_assoc r.applied (event ∷ []) events

  route_late-applied :
      (late : List (List FileEvent)) (r : Routed W P E)
      → (route_late is_file is_dir steps late r).0.applied ≡ r.applied ++ arrived late
  unfolding route_late
  route_late-applied [] r = sym (append-nil r.applied)
  route_late-applied ([] ∷ late) r = sym (append-nil r.applied)
  route_late-applied ((event ∷ batch) ∷ late) r =
      route_late-applied late (route_batch is_file is_dir steps (event ∷ batch) r)
      ∙ ap (λ l. l ++ arrived late) (route_batch-applied (event ∷ batch) r)
      ∙ append_assoc r.applied (event ∷ batch) (arrived late)

  -- A rejected batch gives back all that arrived, and holding is left to the caller.
  abbrev pub GivesBack : List (List FileEvent) → State W → State W × Applied E → Type 0
  GivesBack batches s (t, done out) = t.held ≡ s.held
  GivesBack batches s (t, rejected events errors) = (t.held ≡ s.held) × (events ≡ arrived batches)

  outcome-GivesBack :
      (batches : List (List FileEvent)) (s t : State W) (r : Routed W P E) (o : Option D)
      → t.held ≡ s.held
      → r.applied ≡ arrived batches
      → GivesBack batches s (t, outcome is_file is_dir steps r o)
  unfolding outcome
  outcome-GivesBack batches s t r none h e = h
  outcome-GivesBack batches s t r (some error) h e = (h, e)

  after_rescan-applied :
      (r : Routed W P E) → (after_rescan is_file is_dir steps r).applied ≡ r.applied
  unfolding after_rescan
  after_rescan-applied r = if-applied r.rescanned _ r r.applied refl refl

  pub refreshed-applied :
      (events : List FileEvent) (late : List (List FileEvent)) (r : Routed W P E)
      → (after_refresh is_file is_dir steps (
          after_rescan is_file is_dir steps
            (route_all is_file is_dir steps events late r).0)).applied
        ≡ r.applied ++ arrived (events ∷ late)
  unfolding after_refresh route_all
  refreshed-applied events late r =
      after_rescan-applied (route_late is_file is_dir steps (events ∷ late) r).0
      ∙ route_late-applied (events ∷ late) r

  finish-GivesBack :
      (batches : List (List FileEvent)) (s : State W) (r : Routed W P E)
      → r.applied ≡ arrived batches
      → GivesBack batches s (
          committed is_file is_dir steps s
            (after_refresh is_file is_dir steps (after_rescan is_file is_dir steps r)))
  unfolding committed after_refresh
  finish-GivesBack batches s r e =
      let last = after_refresh is_file is_dir steps (after_rescan is_file is_dir steps r) in
      let (world, error) = steps.commit last.world in
      outcome-GivesBack batches s (record s { links = last.links; world = world }) last error refl
        (after_rescan-applied r ∙ e)

  begun-GivesBack :
      (events : List FileEvent) (late : List (List FileEvent)) (s : State W) (world : W)
      (o : Option D)
      → GivesBack (events ∷ late) s (begun is_file is_dir steps s events late world o).0
  unfolding begun route_all
  begun-GivesBack events late s world (some error) = refl
  begun-GivesBack events late s world none =
      let first : Routed W P E = record {
        links = s.links;
        pending = steps.default;
        world = world;
        out = [];
        applied = [];
        rescanned = false;
      } in
      finish-GivesBack (events ∷ late) s (route_late is_file is_dir steps (events ∷ late) first).0
        (route_late-applied (events ∷ late) first)

  pub apply_batch-GivesBack :
      (events : List FileEvent) (late : List (List FileEvent)) (s : State W)
      → GivesBack (events ∷ late) s (apply_batch is_file is_dir steps events late s).0
  unfolding apply_batch
  apply_batch-GivesBack events late s =
      begun-GivesBack events late s (steps.begin s.world).0 (steps.begin s.world).1
