-- ===== src/OnFile.antt =====
-- packages/rust/src/on_file.rs: how the files of a table are handed to invocations of its program. An
-- argument is its bytes, `windows` the target, and `cpus` the count of processors; a path comes as its
-- argument and the size of its file. Sizes are counted without a bound, as they are far from 64 bits. The
-- processes, their threads and the flag by which a failure stops them are left out.
pub mod Runs
pub mod Packed
pub mod Jobs
use dirsql.Prelude.{
  ℕ, zero, suc, ◌+◌, ◌-◌, ◌*◌, ◌/◌, min, Bool, true, false, not, ◌&&◌, Option, none, some, List, [],
  ◌∷◌, ◌++◌, map, length, take, drop, ltb, leb, ◌==◌, if◌then◌else◌,
}
use dirsql.Commands.{quote_windows_arg}

abbrev pub Arg : Type 0
Arg = List ℕ

pub arg_cost : Bool → Arg → ℕ
unfolding quote_windows_arg
arg_cost windows arg = (if windows then length (quote_windows_arg arg) else length arg) + 1

unfoldable pub argv_bytes : Bool → List Arg → ℕ
argv_bytes windows [] = 0
argv_bytes windows (arg ∷ argv) = arg_cost windows arg + argv_bytes windows argv

pub record Packer : Type 0 where
  pub budget : ℕ
  pub used : ℕ
  pub args : List Arg

abbrev pub is_nil : {A : Type 0} → List A → Bool
is_nil [] = true
is_nil (x ∷ xs) = false

abbrev pub new_packer : ℕ → Packer
new_packer budget = record { budget = budget; used = 0; args = [] }

abbrev pub overflows : Bool → Packer → Arg → Bool
overflows windows p arg = not (is_nil p.args) && ltb p.budget (p.used + arg_cost windows arg)

unfoldable pub pushed : Bool → Packer → Arg → ℕ → Option (List Arg) × Packer
pushed true p arg cost = (some p.args, record p { used = cost; args = arg ∷ [] })
pushed false p arg cost = (none, record p { used = p.used + cost; args = p.args ++ arg ∷ [] })

-- `Packer::push`: the list that the argument overflowed, and the packer afterwards.
unfoldable pub push : Bool → Packer → Arg → Option (List Arg) × Packer
unfolding pushed
push windows p arg = pushed (overflows windows p arg) p arg (arg_cost windows arg)

abbrev pub min_run_bytes : ℕ
min_run_bytes = 4 * 1024 * 1024

abbrev pub sum : List ℕ → ℕ
sum [] = 0
sum (n ∷ ns) = n + sum ns

module _ {A : Type 0} where
  -- The loop over the sizes: the runs so far, where the next one starts, and the bytes seen.
  unfoldable pub spread_from : List A → ℕ → ℕ → ℕ → List ℕ → List (List A) → ℕ → ℕ → List (List A)
  spread_from args total parts i [] out start seen = out ++ drop start args ∷ []
  spread_from args total parts i (size ∷ sizes) out start seen =
      let cut =
        spread_from args total parts (suc i) sizes
          (out ++ take (suc i - start) (drop start args) ∷ []) (suc i) (seen + size) in
      let same = spread_from args total parts (suc i) sizes out start (seen + size) in
      if not (suc i == length args)
        && ltb (suc (length out)) parts
        && leb (total * suc (length out)) ((seen + size) * parts)
      then cut
      else same

  unfoldable pub spread : List A → List ℕ → ℕ → List (List A)
  unfolding spread_from
  spread args sizes parts =
      let most = min (min parts (length args)) (sum sizes / min_run_bytes) in
      if leb most 1 then args ∷ [] else spread_from args (sum sizes) most 0 sizes [] 0 0

  unfoldable pub spread_runs : List A → List ℕ → ℕ → List (List A)
  unfolding spread
  spread_runs args sizes cpus =
      if leb (min (sum sizes / min_run_bytes) (length args)) 1
      then args ∷ []
      else spread args sizes cpus

pub record Tally : Type 0 where
  pub workers : ℕ
  pub limit : ℕ
  pub sent : ℕ

-- `Tally::next`: the job's number, whether a worker is to start, and the tally afterwards.
unfoldable pub next : Tally → (ℕ × Bool) × Tally
next t =
    let spawn = ltb t.workers t.limit in
    (
      (t.sent, spawn),
      record t { sent = suc t.sent; workers = if spawn then suc t.workers else t.workers },
    )

-- The state of the loop over the paths, with the jobs sent.
pub record Dispatch : Type 0 where
  pub packer : Packer
  pub jobs : List (List Arg)
  pub kept : List ℕ
  pub tally : Tally

unfoldable pub send : List Arg → Dispatch → Dispatch
unfolding next
send args d = record d { jobs = d.jobs ++ args ∷ []; tally = (next d.tally).1 }

abbrev pub keep : ℕ → Dispatch → Dispatch
keep size d = if d.tally.sent == 0 then record d { kept = d.kept ++ size ∷ [] } else d

unfoldable pub send_full : Option (List Arg) → Dispatch → Dispatch
unfolding send
send_full none d = d
send_full (some full) d = send full d

unfoldable pub take_paths : Bool → List (Arg × ℕ) → Dispatch → Dispatch
unfolding push send_full
take_paths windows [] d = d
take_paths windows ((arg, size) ∷ paths) d =
    let pushed = push windows d.packer arg in
    take_paths windows paths (keep size (send_full pushed.0 (record d { packer = pushed.1 })))

unfoldable pub send_all : List (List Arg) → Dispatch → Dispatch
unfolding send
send_all [] d = d
send_all (run ∷ runs) d = send_all runs (send run d)

abbrev pub start : ℕ → ℕ → Dispatch
start budget cpus = record {
  packer = new_packer budget;
  jobs = [];
  kept = [];
  tally = record { workers = 0; limit = cpus; sent = 0 };
}

-- What is left when the paths are over.
unfoldable pub send_rest : ℕ → Dispatch → Dispatch
unfolding send_all spread_runs send
send_rest cpus d =
    if d.tally.sent == 0
    then send_all (spread_runs d.packer.args d.kept cpus) d
    else send d.packer.args d

unfoldable pub dispatch : Bool → ℕ → ℕ → List (Arg × ℕ) → Dispatch
unfolding take_paths send_rest
dispatch windows budget cpus paths = send_rest cpus (take_paths windows paths (start budget cpus))
