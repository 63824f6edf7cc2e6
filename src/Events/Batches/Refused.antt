-- ===== src/Events/Batches/Refused.antt =====
-- packages/rust/src/lib.rs (`apply_batch`): what a rejected batch reports.
use dirsql.Prelude.{
  ◌<◌, ◌≡◌, refl, Bool, true, false, Option, none, some, List, [], ◌∷◌, ◌++◌, length, all, arith,
  Bool-cases, inl, inr,
}
use dirsql.Watcher.{FilePath, FileEvent}
use dirsql.Events.Batches.{
  Steps, State, Applied, done, rejected, Routed, route_late, route_all, after_rescan, after_refresh,
  errors_of, outcome, committed, begun, apply_batch,
}
use dirsql.Events.Batches.Given.{arrived, GivesBack, apply_batch-GivesBack}

module _ (is_file is_dir : FilePath → Bool) {W P E D : Type 0} (steps : Steps W P E D)
    (error-is_error : (d : D) → steps.is_error (steps.batch_error d) ≡ true) where
  errors_of-errors :
      (events : List E) (d : D)
      → (all steps.is_error (errors_of is_file is_dir steps events ++ steps.batch_error d ∷ [])
          ≡ true)
        × (0 < length (errors_of is_file is_dir steps events ++ steps.batch_error d ∷ []))
  unfolding errors_of
  errors_of-errors [] d = (rw (error-is_error d) refl, omega arith)
  errors_of-errors (event ∷ events) d = elim (Bool-cases (steps.is_error event)) [
    | inl error ↦ rw (error, error) ((errors_of-errors events d).0, omega arith)
    | inr fine ↦ rw fine (errors_of-errors events d)
  ]

  -- What a batch reports where it is rejected.
  abbrev pub Refuses : List (List FileEvent) → Applied E → Type 0
  Refuses batches (done out) = Unit
  Refuses batches (rejected events errors) =
      (events ≡ arrived batches) × (all steps.is_error errors ≡ true) × (0 < length errors)

  abbrev OnlyErrors : Applied E → Type 0
  OnlyErrors (done out) = Unit
  OnlyErrors (rejected events errors) = (all steps.is_error errors ≡ true) × (0 < length errors)

  outcome-OnlyErrors :
      (r : Routed W P E) (o : Option D) → OnlyErrors (outcome is_file is_dir steps r o)
  unfolding outcome
  outcome-OnlyErrors r none = tt
  outcome-OnlyErrors r (some d) = errors_of-errors r.out d

  begun-OnlyErrors :
      (events : List FileEvent) (late : List (List FileEvent)) (s : State W) (world : W)
      (o : Option D)
      → OnlyErrors (begun is_file is_dir steps s events late world o).0.1
  unfolding begun committed route_all
  begun-OnlyErrors events late s world (some d) = tt
  begun-OnlyErrors events late s world none =
      let first : Routed W P E = record {
        links = s.links;
        pending = steps.default;
        world = world;
        out = [];
        applied = [];
        rescanned = false;
      } in
      let routed = (route_late is_file is_dir steps (events ∷ late) first).0 in
      let last = after_refresh is_file is_dir steps (after_rescan is_file is_dir steps routed) in
      outcome-OnlyErrors last (steps.commit last.world).1

  apply_batch-OnlyErrors :
      (events : List FileEvent) (late : List (List FileEvent)) (s : State W)
      → OnlyErrors (apply_batch is_file is_dir steps events late s).0.1
  unfolding apply_batch
  apply_batch-OnlyErrors events late s =
      begun-OnlyErrors events late s (steps.begin s.world).0 (steps.begin s.world).1

  both_ways :
      (batches : List (List FileEvent)) (s : State W) (r : State W × Applied E)
      → GivesBack is_file is_dir steps batches s r
      → OnlyErrors r.1
      → Refuses batches r.1
  both_ways batches s (t, done out) back only = tt
  both_ways batches s (t, rejected events errors) (same, back) only = (back, only.0, only.1)

  -- Where the event that reports an error is an error: a batch that is rejected gives back all its
  -- events and those that arrived while it was routed, in order, and reports errors only, and at least
  -- one.
  pub apply_batch-Refuses :
      (events : List FileEvent) (late : List (List FileEvent)) (s : State W)
      → Refuses (events ∷ late) (apply_batch is_file is_dir steps events late s).0.1
  apply_batch-Refuses events late s =
      both_ways (events ∷ late) s (apply_batch is_file is_dir steps events late s).0
        (apply_batch-GivesBack is_file is_dir steps events late s)
        (apply_batch-OnlyErrors events late s)
