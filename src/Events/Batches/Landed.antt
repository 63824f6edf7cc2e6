-- ===== src/Events/Batches/Landed.antt =====
-- packages/rust/src/lib.rs (`apply_events`, `apply_batch`): no event is lost, where
-- transactions can begin. One that cannot begin is answered as if it were done, and its events go.
use dirsql.Prelude.{
  suc, ◌≡◌, ap, ◌∙◌, ◌⊎◌, Bool, true, false, none, List, [], ◌∷◌, ◌++◌, length, take, take-append,
  append_assoc,
}
use dirsql.Watcher.{FilePath, FileEvent}
use dirsql.Events.Links.{has_event}
use dirsql.Events.Batches.{
  Steps, State, Applied, done, rejected, Routed, route_all, after_rescan, after_refresh,
}
use dirsql.Events.Batches.Given.{arrived}

module _ (is_file is_dir : FilePath → Bool) {W P E D : Type 0} (steps : Steps W P E D) where
  abbrev pub IsDone : Applied E → Type 0
  IsDone (done out) = Unit
  IsDone (rejected events errors) = ⊥

  -- A batch, routed to its end in a transaction, just before the commit.
  abbrev pub sent : List FileEvent → List (List FileEvent) → State W → Routed W P E
  sent events late s = after_refresh is_file is_dir steps (
      after_rescan is_file is_dir steps
        (route_all is_file is_dir steps events late (record {
          links = s.links;
          pending = steps.default;
          world = (steps.begin s.world).0;
          out = [];
          applied = [];
          rescanned = false;
        })).0)

  -- The event is one of a batch that was routed in a transaction, which began and was committed, and
  -- what the commit left is `world`.
  pub record Lands (e : FileEvent) (world : W) : Type 0 where
    pub events : List FileEvent
    pub late : List (List FileEvent)
    pub start : State W
    pub begins : (steps.begin start.world).1 ≡ none
    pub is_routed : has_event e (sent events late start).applied ≡ true
    pub commits : (steps.commit (sent events late start).world).1 ≡ none
    pub leaves : (steps.commit (sent events late start).world).0 ≡ world

  module _ (begins : (world : W) → (steps.begin world).1 ≡ none) where
    -- The event has landed, or it is held.
    abbrev pub IsKept : FileEvent → State W → Type 0
    IsKept e t = Lands e t.world ⊎ (has_event e t.held ≡ true)

    module _ (e : FileEvent) (f : FileEvent) (held events : List FileEvent)
        (late : List (List FileEvent)) where
      abbrev fresh : List FileEvent
      fresh = events ++ arrived late

      -- What a rejected batch gives back comes apart again.
      taken :
          (back : List FileEvent)
          → back ≡ arrived ((f ∷ held ++ events) ∷ late)
          → take (suc (length held)) back ≡ f ∷ held
      taken back same =
          ap (take (suc (length held))) (same ∙ append_assoc (f ∷ held) events (arrived late))
          ∙ take-append (f ∷ held) fresh
