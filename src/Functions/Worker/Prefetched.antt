-- ===== src/Functions/Worker/Prefetched.antt =====
-- packages/rust/src/functions.rs (`Worker`): the replies in hand are the worker's.
use dirsql.Prelude.{
  ℕ, ◌≡◌, refl, sym, ap, ◌∙◌, inl, inr, Bool, true, false, Option, none, some, List, [], ◌∷◌, ◌++◌,
  map, Text, text_eq, text_eq_iff, length, if◌then◌else◌, arith, Bool-cases,
}
use dirsql.Value.{Value}
use dirsql.Functions.Wire.{Result, ok, err, Codec, request_line, batched_request_line}
use dirsql.Functions.Worker.{
  CallError, Done, done, Host, Collect, Answer, WorkerInner, lookup, put, contains, is_due, times,
  exchange, decoded, trip, round_trip, kept, counted, filed, file, file_all, results_of,
  flush_pending, flush_from, flush, queue, with_placeholder, in_hand, answer_with, stand_in,
  collecting, call,
}
use dirsql.Functions.Worker.Exchange.{Steady, exchange-Ended, exchange-all}

pub lookup-put :
    {A : Type 0} (k j : Text) (a : A) (entries : List (Text × A))
    → lookup k (put j a entries) ≡ (if text_eq j k then some a else lookup k entries)
unfolding lookup put
lookup-put k j a [] = refl
lookup-put k j a ((i, b) ∷ entries) = elim (Bool-cases (text_eq i j)) [
  | inl same ↦
      let is_j = (text_eq_iff i j).0 same in
      rw (same, is_j) (both_first (some a) (some b) (lookup k entries) (text_eq j k))
  | inr apart ↦
      rw (apart, lookup-put k j a entries)
        (either_first (some a) (some b) (lookup k entries) (text_eq i k) (text_eq j k) (λ at_i at_j.
          apart_keys (
            sym apart
            ∙ (text_eq_iff i j).1 ((text_eq_iff i k).0 at_i ∙ sym ((text_eq_iff j k).0 at_j)))))
]
  where
    both_first :
        {A : Type 0} (x y z : A) (c : Bool)
        → (if c then x else z) ≡ (if c then x else if c then y else z)
    both_first x y z true = refl
    both_first x y z false = refl

    either_first :
        {A : Type 0} (x y z : A) (b c : Bool)
        → (b ≡ true → c ≡ true → ⊥)
        → (if b then y else if c then x else z) ≡ (if c then x else if b then y else z)
    either_first x y z true true h = absurd (h refl refl)
    either_first x y z true false h = refl
    either_first x y z false c h = refl

    apart_keys : false ≡ true → ⊥
    apart_keys e = ground (arith, e)

module _ {F W T : Type 0} (codec : Codec F) (host : Host W T) (timeout : ℕ) (batch : Option ℕ)
    (P : Text → Answer F → Type 0) where
  -- Each reply in hand is one that `P` allows for its request line.
  abbrev pub InHand : List (Text × Answer F) → Type 0
  InHand entries = (key : Text) (a : Answer F) → lookup key entries ≡ some a → P key a

  held_as : (key k : Text) (a b : Answer F) → P key a → key ≡ k → some a ≡ some b → P k b
  held_as key k a b h same e = rw (sym same, sym (unwrapped a b e)) h
    where
      unwrapped : (a b : Answer F) → some a ≡ some b → a ≡ b
      unwrapped a b e = ground (arith, e)

  put-InHand :
      (key : Text) (a : Answer F) (entries : List (Text × Answer F))
      → P key a
      → InHand entries
      → InHand (put key a entries)
  put-InHand key a entries h hs k b e = elim (Bool-cases (text_eq key k)) [
    | inl same ↦ held_as key k a b h ((text_eq_iff key k).0 same) (
        sym (lookup-put k key a entries ∙ ap (λ c. if c then some a else lookup k entries) same)
        ∙ e)
    | inr apart ↦ hs k b (
        sym (lookup-put k key a entries ∙ ap (λ c. if c then some a else lookup k entries) apart)
        ∙ e)
  ]

  file-InHand :
      (answer : Text → Answer F) (pending : List (List (Value F))) (s : WorkerInner F W T)
      → ((args : List (Value F)) → P (request_line codec args) (answer (request_line codec args)))
      → InHand s.prefetched
      → InHand
          (file codec host timeout batch pending
            (map (λ args. answer (request_line codec args)) pending)
            s).prefetched
  unfolding file filed
  file-InHand answer [] s allowed hs = hs
  file-InHand answer (args ∷ pending) s allowed hs =
      file-InHand answer pending
        (filed codec host timeout batch args (answer (request_line codec args)) s) allowed
        (put-InHand (request_line codec args) (answer (request_line codec args)) s.prefetched
          (allowed args) hs)

  file_all-InHand :
      (answer : Text → Answer F) (pending : List (List (Value F)))
      (r : Result CallError Text × WorkerInner F W T)
      → ((args : List (Value F)) → P (request_line codec args) (answer (request_line codec args)))
      → ((line : Text)
          → r.0 ≡ ok line
          → results_of codec host timeout batch line (length pending)
            ≡ map (λ args. answer (request_line codec args)) pending)
      → InHand r.1.prefetched
      → InHand (file_all codec host timeout batch pending r).1.prefetched
  unfolding file_all
  file_all-InHand answer pending (err e, s) allowed given hs = hs
  file_all-InHand answer pending (ok line, s) allowed given hs =
      rw (given line refl) (file-InHand answer pending s allowed hs)

  module _ (answer : Text → Answer F) (steady : Steady codec host timeout batch answer)
      (allowed : (args : List (Value F))
        → P (request_line codec args) (answer (request_line codec args))) where
    flush_pending-InHand :
        (c : Collect F) (pending : List (List (Value F))) (s : WorkerInner F W T)
        → InHand s.prefetched
        → InHand (flush_pending codec host timeout batch c pending s).1.prefetched
    unfolding flush_pending
    flush_pending-InHand c [] s hs = hs
    flush_pending-InHand c (args ∷ rest) s hs =
        let calls = args ∷ rest in
        let emptied : WorkerInner F W T = record s { collect = some (record c { pending = [] }) } in
        let time = times timeout (length calls) in
        let r =
          exchange codec host timeout batch (batched_request_line codec calls) time (length calls)
            emptied in
        let same =
          (exchange-Ended codec host timeout batch (batched_request_line codec calls) time
            (length calls) emptied).1.0 in
        file_all-InHand answer calls r allowed
          (λ line e.
            exchange-all codec host timeout batch answer calls time (length calls) line emptied
              steady e)
          (rw same hs)

    flush_from-InHand :
        (o : Option (Collect F)) (s : WorkerInner F W T)
        → InHand s.prefetched
        → InHand (flush_from codec host timeout batch o s).1.prefetched
    unfolding flush_from
    flush_from-InHand none s hs = hs
    flush_from-InHand (some c) s hs = flush_pending-InHand c c.pending s hs

    pub flush-InHand :
        (s : WorkerInner F W T)
        → InHand s.prefetched
        → InHand (flush codec host timeout batch s).1.prefetched
    unfolding flush
    flush-InHand s hs = flush_from-InHand s.collect s hs

    queue-InHand :
        (c : Collect F) (s : WorkerInner F W T)
        → InHand s.prefetched
        → InHand (queue codec host timeout batch c s).1.prefetched
    unfolding queue
    queue-InHand c s hs =
        if_due (is_due (length c.pending) batch)
          (flush codec host timeout batch (record s { collect = some c }))
          (ok done, record s { collect = some c }) (flush-InHand (record s { collect = some c }) hs)
          hs
      where
        if_due :
            (b : Bool) (x y : Result CallError Done × WorkerInner F W T)
            → InHand x.1.prefetched
            → InHand y.1.prefetched
            → InHand (if b then x else y).1.prefetched
        if_due true x y h g = h
        if_due false x y h g = g

    answered-prefetched :
        (value : Value F) (r : Result CallError Done × WorkerInner F W T)
        → (answer_with codec host timeout batch value r).1 ≡ r.1
    unfolding answer_with
    answered-prefetched value (ok d, s) = refl
    answered-prefetched value (err e, s) = refl

    kept-InHand :
        (key : Text) (a : Answer F) (o : Option (Collect F)) (s : WorkerInner F W T)
        → P key a
        → InHand s.prefetched
        → InHand (kept codec host timeout batch key a o s).prefetched
    unfolding kept
    kept-InHand key a none s h hs = hs
    kept-InHand key a (some c) s h hs = put-InHand key a s.prefetched h hs

    stand_in-InHand :
        (args : List (Value F)) (key : Text) (value : Value F) (c : Collect F)
        (s : WorkerInner F W T)
        → InHand s.prefetched
        → InHand (stand_in codec host timeout batch args key value c s).1.prefetched
    unfolding stand_in
    stand_in-InHand args key value c s hs =
        if_queued (contains key c.queued)
          (record s { collect = some (record c { invoked = true }) })
          (queue codec host timeout batch
            (record c { invoked = true; pending = c.pending ++ args ∷ []; queued = key ∷ c.queued })
            s)
          hs
          (queue-InHand
            (record c { invoked = true; pending = c.pending ++ args ∷ []; queued = key ∷ c.queued })
            s hs)
      where
        if_queued :
            (b : Bool) (x : WorkerInner F W T) (y : Result CallError Done × WorkerInner F W T)
            → InHand x.prefetched
            → InHand y.1.prefetched
            → InHand
                (answer_with codec host timeout batch value
                  (if b then (ok done, x) else y)).1.prefetched
        if_queued true x y h g = rw (answered-prefetched value (ok done, x)) h
        if_queued false x y h g = rw (answered-prefetched value y) g

    trip-InHand :
        (key : Text) (r : Result CallError Text × WorkerInner F W T)
        → P key (trip codec host timeout batch key r).0
        → InHand r.1.prefetched
        → InHand (trip codec host timeout batch key r).1.prefetched
    unfolding trip
    trip-InHand key (result, s) h hs =
        kept-InHand key (decoded codec host timeout batch result) s.collect
          (record s {
            world =
                counted codec host timeout batch (decoded codec host timeout batch result) s.world;
          })
          h hs

    round_trip-InHand :
        (key : Text) (s : WorkerInner F W T)
        → P key (round_trip codec host timeout batch key s).0
        → InHand s.prefetched
        → InHand (round_trip codec host timeout batch key s).1.prefetched
    unfolding round_trip
    round_trip-InHand key s h hs =
        let t : WorkerInner F W T = record s { world = host.record_call s.world } in
        trip-InHand key (exchange codec host timeout batch key timeout 1 t) h
          (rw ((exchange-Ended codec host timeout batch key timeout 1 t).1.0) hs)

    -- What a call that makes its own round trip must come to.
    abbrev pub Trips : Text → Answer F → Type 0
    Trips key a =
        (t : WorkerInner F W T)
        → (round_trip codec host timeout batch key t).0 ≡ a
        → P key (round_trip codec host timeout batch key t).0

    with_placeholder-InHand :
        (args : List (Value F)) (key : Text) (c : Collect F) (o : Option (Value F))
        (s : WorkerInner F W T)
        → Trips key (with_placeholder codec host timeout batch args key c o s).0
        → InHand s.prefetched
        → InHand (with_placeholder codec host timeout batch args key c o s).1.prefetched
    unfolding with_placeholder
    with_placeholder-InHand args key c none s trips hs =
        let t : WorkerInner F W T = record s { collect = some (record c { invoked = true }) } in
        round_trip-InHand key t (trips t refl) hs
    with_placeholder-InHand args key c (some value) s trips hs =
        stand_in-InHand args key value c s hs

    collecting-InHand :
        (args : List (Value F)) (key : Text) (o : Option (Collect F)) (s : WorkerInner F W T)
        → Trips key (collecting codec host timeout batch args key o s).0
        → InHand s.prefetched
        → InHand (collecting codec host timeout batch args key o s).1.prefetched
    unfolding collecting
    collecting-InHand args key none s trips hs = round_trip-InHand key s (trips s refl) hs
    collecting-InHand args key (some c) s trips hs =
        with_placeholder-InHand args key c c.placeholder s trips hs

    in_hand-InHand :
        (args : List (Value F)) (o : Option (Answer F)) (s : WorkerInner F W T)
        → Trips (request_line codec args) (in_hand codec host timeout batch args o s).0
        → InHand s.prefetched
        → InHand (in_hand codec host timeout batch args o s).1.prefetched
    unfolding in_hand
    in_hand-InHand args (some a) s trips hs = hs
    in_hand-InHand args none s trips hs =
        collecting-InHand args (request_line codec args) s.collect s trips hs

    -- A call keeps the replies in hand allowed.
    pub call-InHand :
        (args : List (Value F)) (s : WorkerInner F W T)
        → Trips (request_line codec args) (call codec host timeout batch args s).0
        → InHand s.prefetched
        → InHand (call codec host timeout batch args s).1.prefetched
    unfolding call
    call-InHand args s trips hs =
        in_hand-InHand args (lookup (request_line codec args) s.prefetched) s trips hs
