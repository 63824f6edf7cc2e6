-- ===== src/OnFile/Packed.antt =====
-- packages/rust/src/on_file.rs (`Packer`, `Dispatch`): what the loop over the paths keeps.
use mathlib.Core.List.{flatten}
use dirsql.Prelude.{
  ℕ, suc, ◌+◌, ◌≤◌, ◌≡◌, refl, sym, ap, ◌∙◌, ◌⊎◌, inl, inr, Bool, true, false, not, ◌&&◌, List, [],
  ◌∷◌, ◌++◌, map, append-nil, append_assoc, ltb, ◌==◌, if◌then◌else◌, arith,
}
use dirsql.OnFile.{
  Arg, arg_cost, argv_bytes, Packer, is_nil, overflows, pushed, push, Tally, next, Dispatch, send,
  keep, send_full, take_paths,
}
use dirsql.OnFile.Runs.{flatten-snoc}

pub argv_bytes-append :
    (windows : Bool) (xs ys : List Arg)
    → argv_bytes windows (xs ++ ys) ≡ argv_bytes windows xs + argv_bytes windows ys
unfolding argv_bytes
argv_bytes-append windows [] ys = omega arith
argv_bytes-append windows (x ∷ xs) ys = omega (arith, argv_bytes-append windows xs ys)

module _ (windows : Bool) where
  -- An argument list fits: it is within the budget, or a single argument.
  abbrev pub Fits : ℕ → List Arg → Type 0
  Fits budget args = (argv_bytes windows args ≤ budget) ⊎ ((arg : Arg) × (args ≡ arg ∷ []))

  abbrev pub AllFit : ℕ → List (List Arg) → Type 0
  AllFit budget [] = Unit {0}
  AllFit budget (job ∷ jobs) = Fits budget job × AllFit budget jobs

  -- A packer counts what it holds, and that fits.
  pub record Counted (p : Packer) : Type 0 where
    pub bytes : p.used ≡ argv_bytes windows p.args
    pub fitting : (p.args ≡ []) ⊎ Fits p.budget p.args

  pub AllFit-snoc :
      (budget : ℕ) (jobs : List (List Arg)) (job : List Arg)
      → AllFit budget jobs
      → Fits budget job
      → AllFit budget (jobs ++ job ∷ [])
  AllFit-snoc budget [] job h g = (g, tt)
  AllFit-snoc budget (first ∷ jobs) job (f, h) g = (f, AllFit-snoc budget jobs job h g)

  -- What the loop keeps, after the arguments `done`.
  pub record Going (budget cpus : ℕ) (done : List Arg) (d : Dispatch) : Type 0 where
    pub whole : flatten d.jobs ++ d.packer.args ≡ done
    pub fits : AllFit budget d.jobs
    pub counted : Counted d.packer
    pub same_budget : d.packer.budget ≡ budget
    pub same_limit : d.tally.limit ≡ cpus
    pub workers : d.tally.workers ≤ cpus

  pub next-limit :
      (cpus : ℕ) (t : Tally)
      → t.limit ≡ cpus
      → t.workers ≤ cpus
      → ((next t).1.limit ≡ cpus) × ((next t).1.workers ≤ cpus)
  unfolding next
  next-limit cpus t same h = (same, most (ltb t.workers t.limit) refl)
    where
      most :
          (b : Bool) → ltb t.workers t.limit ≡ b → (if b then suc t.workers else t.workers) ≤ cpus
      most true e = ground (arith, e, same)
      most false e = h

  send-Going :
      (budget cpus : ℕ) (done : List Arg) (d : Dispatch) (job : List Arg) (p : Packer)
      → Going budget cpus done d
      → Fits budget job
      → Counted p
      → p.budget ≡ budget
      → (more : List Arg) → (flatten d.jobs ++ job) ++ p.args ≡ more
      → Going budget cpus more (send job (record d { packer = p }))
  unfolding send
  send-Going budget cpus done d job p g f counted same more e =
      let (limit, workers) = next-limit cpus d.tally g.same_limit g.workers in
      record {
        whole = ap (λ l. l ++ p.args) (flatten-snoc d.jobs job) ∙ e;
        fits = AllFit-snoc budget d.jobs job g.fits f;
        counted = counted;
        same_budget = same;
        same_limit = limit;
        workers = workers;
      }

  keep-Going :
      (budget cpus size : ℕ) (done : List Arg) (d : Dispatch)
      → Going budget cpus done d
      → Going budget cpus done (keep size d)
  keep-Going budget cpus size done d g = either (d.tally.sent == 0)
    where
      either :
          (b : Bool)
          → Going budget cpus done (if b then record d { kept = d.kept ++ size ∷ [] } else d)
      either true = record {
        whole = g.whole;
        fits = g.fits;
        counted = g.counted;
        same_budget = g.same_budget;
        same_limit = g.same_limit;
        workers = g.workers;
      }
      either false = g

  add-Fits :
      (args : List Arg) (used budget : ℕ) (arg : Arg)
      → used ≡ argv_bytes windows args
      → (not (is_nil args) && ltb budget (used + arg_cost windows arg)) ≡ false
      → Fits budget (args ++ arg ∷ [])
  unfolding argv_bytes
  add-Fits [] used budget arg e h = inr (arg, refl)
  add-Fits (x ∷ xs) used budget arg e h = inl (
      within used (arg_cost windows arg) budget (argv_bytes windows (x ∷ xs ++ arg ∷ [])) h (
        argv_bytes-append windows (x ∷ xs) (arg ∷ [])
        ∙ ap (λ n. n + (arg_cost windows arg + 0)) (sym e)))
    where
      within :
          (used cost budget total : ℕ)
          → ltb budget (used + cost) ≡ false
          → total ≡ used + (cost + 0)
          → total ≤ budget
      within used cost budget total h e = ground (arith, h, e)

  add-Counted :
      (p : Packer) (arg : Arg)
      → overflows windows p arg ≡ false
      → Counted p
      → Counted (record p { used = p.used + arg_cost windows arg; args = p.args ++ arg ∷ [] })
  unfolding argv_bytes
  add-Counted p arg e c = record {
    bytes =
        ap (λ n. n + arg_cost windows arg) c.bytes
        ∙ total (argv_bytes windows p.args) (arg_cost windows arg)
        ∙ sym (argv_bytes-append windows p.args (arg ∷ []));
    fitting = inr (add-Fits p.args p.used p.budget arg c.bytes e);
  }
    where
      total : (m n : ℕ) → m + n ≡ m + (n + 0)
      total m n = omega arith

  one-Counted :
      (p : Packer) (arg : Arg) → Counted (record p { used = arg_cost windows arg; args = arg ∷ [] })
  unfolding argv_bytes
  one-Counted p arg = record {
    bytes = total (arg_cost windows arg);
    fitting = inr (inr (arg, refl));
  }
    where
      total : (n : ℕ) → n ≡ n + 0
      total n = omega arith

  full-Fits :
      (args : List Arg) (budget : ℕ) (late : Bool)
      → (not (is_nil args) && late) ≡ true
      → (args ≡ []) ⊎ Fits budget args
      → Fits budget args
  full-Fits args budget late e (inr fits) = fits
  full-Fits args budget late e (inl empty) =
      absurd (nothing late (ap (λ l. not (is_nil l) && late) (sym empty) ∙ e))
    where
      nothing : (late : Bool) → false ≡ true → ⊥
      nothing late e = ground (arith, e)

  pushed-Going :
      (budget cpus : ℕ) (done : List Arg) (d : Dispatch) (arg : Arg) (b : Bool)
      → overflows windows d.packer arg ≡ b
      → Going budget cpus done d
      → Going budget cpus (done ++ arg ∷ []) (
          send_full
            (pushed b d.packer arg (arg_cost windows arg)).0
            (record d { packer = (pushed b d.packer arg (arg_cost windows arg)).1 }))
  unfolding pushed send_full
  pushed-Going budget cpus done d arg true e g =
      send-Going budget cpus done d d.packer.args
        (record (d.packer) { used = arg_cost windows arg; args = arg ∷ [] }) g
        (let fits =
            full-Fits d.packer.args d.packer.budget
              (ltb d.packer.budget (d.packer.used + arg_cost windows arg)) e (g.counted.fitting) in
          let fits' = rw (g.same_budget) at fits in fits')
        (one-Counted d.packer arg) g.same_budget (done ++ arg ∷ [])
        (ap (λ l. l ++ arg ∷ []) g.whole)
  pushed-Going budget cpus done d arg false e g = record {
    whole =
        sym (append_assoc (flatten d.jobs) d.packer.args (arg ∷ []))
        ∙ ap (λ l. l ++ arg ∷ []) g.whole;
    fits = g.fits;
    counted = add-Counted d.packer arg e g.counted;
    same_budget = g.same_budget;
    same_limit = g.same_limit;
    workers = g.workers;
  }

  pub take_paths-Going :
      (budget cpus : ℕ) (done : List Arg) (paths : List (Arg × ℕ)) (d : Dispatch)
      → Going budget cpus done d
      → Going budget cpus (done ++ map (λ path. path.0) paths) (take_paths windows paths d)
  unfolding take_paths push
  take_paths-Going budget cpus done [] d g = rw (append-nil done) g
  take_paths-Going budget cpus done ((arg, size) ∷ paths) d g =
      let p = push windows d.packer arg in
      let e : Dispatch = keep size (send_full p.0 (record d { packer = p.1 })) in
      rw (sym (append_assoc done (arg ∷ []) (map (λ path. path.0) paths))) (
        take_paths-Going budget cpus (done ++ arg ∷ []) paths e (
          keep-Going budget cpus size (done ++ arg ∷ []) (send_full p.0 (record d { packer = p.1 }))
            (pushed-Going budget cpus done d arg (overflows windows d.packer arg) refl g)))
