-- ===== src/OnFile/Jobs.antt =====
-- packages/rust/src/on_file.rs (`Packer`, `Dispatch`): the jobs that the paths make.
use mathlib.Core.List.{flatten}
use dirsql.Prelude.{
  ℕ, ◌/◌, ◌≤◌, min, ◌≡◌, refl, sym, ap, ◌∙◌, ◌⊎◌, inl, inr, Bool, true, false, List, [], ◌∷◌, ◌++◌,
  map, append-nil, append_assoc, leb, ◌==◌, if◌then◌else◌, arith,
}
use dirsql.OnFile.{
  Arg, argv_bytes, sum, min_run_bytes, spread_runs, Dispatch, send, take_paths, send_all, start,
  send_rest, dispatch,
}
use dirsql.OnFile.Runs.{flatten-snoc, spread_runs-IsCut}
use dirsql.OnFile.Packed.{
  argv_bytes-append, Fits, AllFit, AllFit-snoc, Going, next-limit, take_paths-Going,
}

module _ (windows : Bool) where
  runs-AllFit :
      (budget : ℕ) (runs : List (List Arg))
      → argv_bytes windows (flatten runs) ≤ budget
      → AllFit windows budget runs
  unfolding flatten
  runs-AllFit budget [] h = tt
  runs-AllFit budget (run ∷ runs) h =
      let total = argv_bytes-append windows run (flatten runs) in
      (inl (omega (arith, h, total)), runs-AllFit budget runs (omega (arith, h, total)))

  -- The runs of a list that fits, fit.
  spread-AllFit :
      (budget cpus : ℕ) (args : List Arg) (sizes : List ℕ)
      → 1 ≤ cpus
      → (args ≡ []) ⊎ Fits windows budget args
      → AllFit windows budget (spread_runs args sizes cpus)
  unfolding argv_bytes spread_runs
  spread-AllFit budget cpus args sizes h (inl empty) =
      runs-AllFit budget (spread_runs args sizes cpus) (
        none_cost (flatten (spread_runs args sizes cpus))
          ((spread_runs-IsCut args sizes cpus h).0 ∙ empty))
    where
      none_cost : (l : List Arg) → l ≡ [] → argv_bytes windows l ≤ budget
      none_cost l e = rw e (omega arith)
  spread-AllFit budget cpus args sizes h (inr (inl fits)) =
      runs-AllFit budget (spread_runs args sizes cpus)
        (rw ((spread_runs-IsCut args sizes cpus h).0) fits)
  spread-AllFit budget cpus args sizes h (inr (inr (arg, only))) =
      rw (only, one_run arg (sum sizes / min_run_bytes)) (inr (arg, refl), tt)
    where
      one_run : (arg : Arg) (k : ℕ) → leb (min k 1) 1 ≡ true
      one_run arg k = ground arith

  send_all-Sent :
      (budget cpus : ℕ) (runs : List (List Arg)) (d : Dispatch)
      → AllFit windows budget d.jobs
      → AllFit windows budget runs
      → d.tally.limit ≡ cpus
      → d.tally.workers ≤ cpus
      → (flatten (send_all runs d).jobs ≡ flatten d.jobs ++ flatten runs)
        × AllFit windows budget (send_all runs d).jobs
        × ((send_all runs d).tally.workers ≤ cpus)
  unfolding send_all flatten send
  send_all-Sent budget cpus [] d h fit limit few = (sym (append-nil (flatten d.jobs)), h, few)
  send_all-Sent budget cpus (run ∷ runs) d h (f, fit) limit few =
      let (limit', few') = next-limit windows cpus d.tally limit few in
      let (whole, fits, workers) =
        send_all-Sent budget cpus runs (send run d) (AllFit-snoc windows budget d.jobs run h f) fit
          limit' few' in
      (
        whole
            ∙ ap (λ l. l ++ flatten runs) (flatten-snoc d.jobs run)
            ∙ append_assoc (flatten d.jobs) run (flatten runs),
        fits,
        workers,
      )

  rest-Fits :
      {budget : ℕ} (args : List Arg)
      → (args ≡ []) ⊎ Fits windows budget args
      → Fits windows budget args
  unfolding argv_bytes
  rest-Fits {budget} args (inl empty) = inl (none_cost args empty)
    where
      none_cost : (l : List Arg) → l ≡ [] → argv_bytes windows l ≤ budget
      none_cost l e = rw e (omega arith)
  rest-Fits args (inr fits) = fits

  -- What the jobs of all the paths are.
  abbrev pub Dispatched : ℕ → ℕ → List (Arg × ℕ) → Dispatch → Type 0
  Dispatched budget cpus paths d =
      (flatten d.jobs ≡ map (λ path. path.0) paths)
      × AllFit windows budget d.jobs
      × (d.tally.workers ≤ cpus)

  send_rest-Dispatched :
      (budget cpus : ℕ) (paths : List (Arg × ℕ)) (d : Dispatch)
      → 1 ≤ cpus
      → Going windows budget cpus (map (λ path. path.0) paths) d
      → Dispatched budget cpus paths (send_rest cpus d)
  unfolding send_rest send
  send_rest-Dispatched budget cpus paths d h g = either (d.tally.sent == 0) refl
    where
      fitting : (d.packer.args ≡ []) ⊎ Fits windows budget d.packer.args
      fitting = let f = g.counted.fitting in rw (sym (g.same_budget)) f

      either :
          (b : Bool)
          → (d.tally.sent == 0) ≡ b
          → Dispatched budget cpus paths (
              if b
              then send_all (spread_runs d.packer.args d.kept cpus) d
              else send d.packer.args d)
      either true e =
          let (whole, fits, workers) =
            send_all-Sent budget cpus (spread_runs d.packer.args d.kept cpus) d g.fits
              (spread-AllFit budget cpus d.packer.args d.kept h fitting) g.same_limit g.workers in
          (
            whole
                ∙ ap (λ l. flatten d.jobs ++ l) ((spread_runs-IsCut d.packer.args d.kept cpus h).0)
                ∙ g.whole,
            fits,
            workers,
          )
      either false e = (
        flatten-snoc d.jobs d.packer.args ∙ g.whole,
        AllFit-snoc windows budget d.jobs d.packer.args g.fits (rest-Fits d.packer.args fitting),
        (next-limit windows cpus d.tally g.same_limit g.workers).1,
      )

  -- Each path is an argument of exactly one job, in the order of the paths; each job is within the
  -- budget or has a single argument; and there are at most as many workers as processors, of which
  -- there is one at least.
  pub dispatch-Dispatched :
      (budget cpus : ℕ) (paths : List (Arg × ℕ))
      → 1 ≤ cpus
      → Dispatched budget cpus paths (dispatch windows budget cpus paths)
  unfolding dispatch argv_bytes flatten
  dispatch-Dispatched budget cpus paths h =
      send_rest-Dispatched budget cpus paths (take_paths windows paths (start budget cpus)) h (
        take_paths-Going windows budget cpus [] paths (start budget cpus) (record {
          whole = refl;
          fits = tt;
          counted = record { bytes = refl; fitting = inl refl };
          same_budget = refl;
          same_limit = refl;
          workers = omega arith;
        }))
