-- ===== src/Functions/Worker/Gathered.antt =====
-- packages/rust/src/functions.rs (`Worker`): a statement's collect pass and its real run.
use dirsql.Prelude.{
  ℕ, ◌≡◌, refl, sym, ap, ◌∙◌, ◌⊎◌, inl, inr, Bool, true, false, ◌||◌, Option, none, some, List, [],
  ◌∷◌, ◌++◌, Text, text_eq, text_eq_iff, length, if◌then◌else◌, arith, Bool-cases,
}
use dirsql.Value.{Value}
use dirsql.Functions.Wire.{Result, ok, err, Reply, Codec, request_line}
use dirsql.Functions.Worker.{
  CallError, Done, done, Host, Collect, Answer, WorkerInner, put, contains, with_key, is_due,
  exchange, decoded, trip, round_trip, kept, counted, held, flush, queue, answer_with, stand_in,
  in_hand, call,
}
use dirsql.Functions.Worker.Exchange.{Steady, exchange-Ended}
use dirsql.Functions.Worker.Flushed.{put-IsIn, put-here, lines, Held, flush-Flushed}

with_key-contains :
    (k key : Text) (keys : List Text)
    → contains k (with_key key keys) ≡ true
    → (k ≡ key) ⊎ (contains k keys ≡ true)
with_key-contains k key keys e = either (contains key keys) e
  where
    either :
        (b : Bool)
        → contains k (if b then keys else key ∷ keys) ≡ true
        → (k ≡ key) ⊎ (contains k keys ≡ true)
    either true e = inr e
    either false e = elim (Bool-cases (text_eq k key)) [
      | inl same ↦ inl ((text_eq_iff k key).0 same)
      | inr apart ↦ inr (ground (arith, e, apart))
    ]

module _ {F W T : Type 0} (codec : Codec F) (host : Host W T) (timeout : ℕ) (batch : Option ℕ) where
  -- The calls of a collect pass; a statement stops at an error.
  unfoldable pub gathered :
      (Answer F × WorkerInner F W T)
      → (WorkerInner F W T → Option (WorkerInner F W T))
      → Option (WorkerInner F W T)
  gathered (ok reply, s) k = k s
  gathered (err e, s) k = none

  unfoldable pub gather : List (List (Value F)) → WorkerInner F W T → Option (WorkerInner F W T)
  unfolding gathered
  gather [] s = some s
  gather (args ∷ calls) s = gathered (call codec host timeout batch args s) (gather calls)

  -- What one call of an open pass `c` leaves: the pass is open and the function is known to be called,
  -- nothing queued or in hand is lost, and the call is queued or in hand.
  abbrev pub Gained : Text → Collect F → List (Text × Answer F) → WorkerInner F W T → Type 0
  Gained key c entries s' =
      (c' : Collect F) × (s'.collect ≡ some c')
      × (c'.invoked ≡ true)
      × ((k : Text)
          → contains k c'.queued ≡ true
          → Held codec host timeout batch k c'.pending s'.prefetched)
      × ((k : Text)
          → Held codec host timeout batch k c.pending entries
          → Held codec host timeout batch k c'.pending s'.prefetched)
      × Held codec host timeout batch key c'.pending s'.prefetched

  abbrev pub Covered : Collect F → List (Text × Answer F) → Type 0
  Covered c entries =
      (k : Text) → contains k c.queued ≡ true → Held codec host timeout batch k c.pending entries

  Held-put :
      (k key : Text) (a : Answer F) (pending : List (List (Value F)))
      (entries : List (Text × Answer F))
      → Held codec host timeout batch k pending entries
      → Held codec host timeout batch k pending (put key a entries)
  Held-put k key a pending entries (inl there) = inl (put-IsIn k key a entries there)
  Held-put k key a pending entries (inr queued) = inr queued

  kept-Gained :
      (key : Text) (a : Answer F) (o : Option (Collect F)) (c : Collect F) (s : WorkerInner F W T)
      → o ≡ some c
      → c.invoked ≡ true
      → Covered c s.prefetched
      → Gained key c s.prefetched (kept codec host timeout batch key a o s)
  unfolding kept
  kept-Gained key a none c s e invoked covered = ground (arith, e)
  kept-Gained key a (some d) c s e invoked covered =
      let same : d ≡ c = ground (arith, e) in
      (
        record c {
          placeholder = held codec host timeout batch a c.placeholder;
          queued = with_key key c.queued;
        },
        ap
            (λ (x : Collect F). some (record x {
              placeholder = held codec host timeout batch a x.placeholder;
              queued = with_key key x.queued;
            }))
            same,
        invoked,
        λ k q. elim (with_key-contains k key c.queued q) [
          | inl is_key ↦ inl (put-here k key a s.prefetched is_key)
          | inr before ↦ Held-put k key a c.pending s.prefetched (covered k before)
        ],
        λ k h. Held-put k key a c.pending s.prefetched h,
        inl (put-here key key a s.prefetched refl),
      )

  trip-Gained :
      (key : Text) (r : Result CallError Text × WorkerInner F W T) (c : Collect F)
      → r.1.collect ≡ some c
      → c.invoked ≡ true
      → Covered c r.1.prefetched
      → Gained key c r.1.prefetched (trip codec host timeout batch key r).1
  unfolding trip
  trip-Gained key (result, s) c e invoked covered =
      kept-Gained key (decoded codec host timeout batch result) s.collect c
        (record s {
          world =
              counted codec host timeout batch (decoded codec host timeout batch result) s.world;
        })
        e invoked covered

  Gained-from :
      (key : Text) (c : Collect F) (p q : List (Text × Answer F)) (s' : WorkerInner F W T)
      → q ≡ p
      → Gained key c q s'
      → Gained key c p s'
  Gained-from key c p q s' e g = rw (sym e) g

  pub round_trip-Gained :
      (key : Text) (c : Collect F) (s : WorkerInner F W T)
      → s.collect ≡ some c
      → c.invoked ≡ true
      → Covered c s.prefetched
      → Gained key c s.prefetched (round_trip codec host timeout batch key s).1
  unfolding round_trip
  round_trip-Gained key c s e invoked covered =
      let t : WorkerInner F W T = record s { world = host.record_call s.world } in
      let r = exchange codec host timeout batch key timeout 1 t in
      let (same, collect) = (exchange-Ended codec host timeout batch key timeout 1 t).1 in
      Gained-from key c s.prefetched r.1.prefetched (trip codec host timeout batch key r).1 same
        (trip-Gained key r c (collect ∙ e) invoked (rw same covered))

  lines-more :
      (k : Text) (pending : List (List (Value F))) (args : List (Value F))
      → contains k (lines codec host timeout batch pending) ≡ true
      → contains k (lines codec host timeout batch (pending ++ args ∷ [])) ≡ true
  lines-more k [] args e = ground (arith, e)
  lines-more k (first ∷ pending) args e = elim (Bool-cases (text_eq k (request_line codec first))) [
    | inl same ↦
        ap (λ b. b || contains k (lines codec host timeout batch (pending ++ args ∷ []))) same
    | inr apart ↦
        ap (λ b. b || contains k (lines codec host timeout batch (pending ++ args ∷ []))) apart
        ∙ lines-more k pending args (ground (arith, e, apart))
  ]

  lines-last :
      (pending : List (List (Value F))) (args : List (Value F))
      → contains (request_line codec args) (lines codec host timeout batch (pending ++ args ∷ []))
        ≡ true
  lines-last [] args =
      ap (λ b. b || false)
        ((text_eq_iff (request_line codec args) (request_line codec args)).1 refl)
  lines-last (first ∷ pending) args =
      or_true (text_eq (request_line codec args) (request_line codec first))
        (contains (request_line codec args) (lines codec host timeout batch (pending ++ args ∷ [])))
        (lines-last pending args)
    where
      or_true : (b c : Bool) → c ≡ true → (b || c) ≡ true
      or_true true c e = refl
      or_true false c e = e

  Held-more :
      (k : Text) (pending : List (List (Value F))) (args : List (Value F))
      (entries : List (Text × Answer F))
      → Held codec host timeout batch k pending entries
      → Held codec host timeout batch k (pending ++ args ∷ []) entries
  Held-more k pending args entries (inl there) = inl there
  Held-more k pending args entries (inr queued) = inr (lines-more k pending args queued)

  -- The pass with one more call queued.
  abbrev with_call : List (Value F) → Collect F → Collect F
  with_call args c = record c {
    invoked = true;
    pending = c.pending ++ args ∷ [];
    queued = request_line codec args ∷ c.queued;
  }

  call-Covered :
      (args : List (Value F)) (c : Collect F) (entries : List (Text × Answer F))
      → Covered c entries
      → Covered (with_call args c) entries
  call-Covered args c entries covered k q =
      elim (Bool-cases (text_eq k (request_line codec args))) [
        | inl same ↦ inr (
            ap (λ x. contains x (lines codec host timeout batch (c.pending ++ args ∷ [])))
              ((text_eq_iff k (request_line codec args)).0 same)
            ∙ lines-last c.pending args)
        | inr apart ↦ Held-more k c.pending args entries (covered k (ground (arith, q, apart)))
      ]

  if_due :
      (answer : Text → Answer F) (args : List (Value F)) (c : Collect F) (s : WorkerInner F W T)
      (b : Bool)
      → Steady codec host timeout batch answer
      → Covered c s.prefetched
      → s.collect ≡ some (with_call args c)
      → (if b then flush codec host timeout batch s else (ok done, s)).0 ≡ ok done
      → Gained
          (request_line codec args)
          c
          s.prefetched
          (if b then flush codec host timeout batch s else (ok done, s)).1
  if_due answer args c s true steady covered e fine =
      let (collect, in_hand) =
        flush-Flushed codec host timeout batch answer steady (with_call args c) s e fine in
      (
        record (with_call args c) { pending = [] },
        collect,
        refl,
        λ k q. inl (in_hand k (call-Covered args c s.prefetched covered k q)),
        λ k h. inl (in_hand k (Held-more k c.pending args s.prefetched h)),
        inl (in_hand (request_line codec args) (inr (lines-last c.pending args))),
      )
  if_due answer args c s false steady covered e fine = (
    with_call args c,
    e,
    refl,
    call-Covered args c s.prefetched covered,
    λ k h. Held-more k c.pending args s.prefetched h,
    inr (lines-last c.pending args),
  )

  queue-Gained :
      (answer : Text → Answer F) (args : List (Value F)) (c : Collect F) (s : WorkerInner F W T)
      → Steady codec host timeout batch answer
      → Covered c s.prefetched
      → (queue codec host timeout batch (with_call args c) s).0 ≡ ok done
      → Gained
          (request_line codec args)
          c
          s.prefetched
          (queue codec host timeout batch (with_call args c) s).1
  unfolding queue
  queue-Gained answer args c s steady covered fine =
      if_due answer args c (record s { collect = some (with_call args c) })
        (is_due (length (c.pending ++ args ∷ [])) batch) steady covered refl fine

  answered-Gained :
      (key : Text) (value : Value F) (reply : Reply F) (c : Collect F)
      (entries : List (Text × Answer F)) (r : Result CallError Done × WorkerInner F W T)
      → (r.0 ≡ ok done → Gained key c entries r.1)
      → (answer_with codec host timeout batch value r).0 ≡ ok reply
      → Gained key c entries (answer_with codec host timeout batch value r).1
  unfolding answer_with
  answered-Gained key value reply c entries (ok done, s) h fine = h refl
  answered-Gained key value reply c entries (err e, s) h fine = ground (arith, fine)

  pub stand_in-Gained :
      (answer : Text → Answer F) (args : List (Value F)) (value : Value F) (reply : Reply F)
      (c : Collect F) (s : WorkerInner F W T)
      → Steady codec host timeout batch answer
      → Covered c s.prefetched
      → (stand_in codec host timeout batch args (request_line codec args) value c s).0 ≡ ok reply
      → Gained
          (request_line codec args)
          c
          s.prefetched
          (stand_in codec host timeout batch args (request_line codec args) value c s).1
  unfolding stand_in
  stand_in-Gained answer args value reply c s steady covered fine =
      answered-Gained key value reply c s.prefetched
        (if contains key c.queued
          then (ok done, repeat)
          else queue codec host timeout batch (with_call args c) s)
        (if_queued (contains key c.queued) refl) fine
    where
      key : Text
      key = request_line codec args

      repeat : WorkerInner F W T
      repeat = record s { collect = some (record c { invoked = true }) }

      if_queued :
          (b : Bool)
          → contains key c.queued ≡ b
          → (if b then (ok done, repeat) else queue codec host timeout batch (with_call args c) s).0
            ≡ ok done
          → Gained key c s.prefetched
              (if b
                then (ok done, repeat)
                else queue codec host timeout batch (with_call args c) s).1
      if_queued true e h =
          (record c { invoked = true }, refl, refl, covered, λ k g. g, covered key e)
      if_queued false e h = queue-Gained answer args c s steady covered h
