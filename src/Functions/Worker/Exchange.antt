-- ===== src/Functions/Worker/Exchange.antt =====
-- packages/rust/src/functions.rs (`Worker::exchange`): what one round trip does.
use dirsql.Prelude.{
  ℕ, ◌≡◌, refl, ap, ◌∙◌, Bool, true, false, Option, none, some, List, map, Text, length, arith,
}
use dirsql.Value.{Value}
use dirsql.Functions.Wire.{Result, ok, err, Codec, request_line, batched_request_line}
use dirsql.Functions.Worker.{
  Unfinished, timed_out, closed, CallError, not_started, not_accepting, out_of_time, exited, Host,
  Answer, WorkerInner, spawned_as, spawned, received, sent, exchanged, exchange, decode, results_of,
}

-- The failures of a round trip below the protocol.
abbrev pub is_transport : CallError → Bool
is_transport (not_started e) = true
is_transport not_accepting = true
is_transport (out_of_time time count) = true
is_transport exited = true
is_transport _ = false

module _ {F W T : Type 0} (codec : Codec F) (host : Host W T) (timeout : ℕ) (batch : Option ℕ) where
  -- The worker answers a request line always alike, and a batched request as its calls one by one.
  pub record Steady (answer : Text → Answer F) : Type 0 where
    pub one :
        (t : T) (args : List (Value F)) (time : ℕ) (line : Text) (w u v : W)
        → host.send_line t (request_line codec args) w ≡ (true, u)
        → host.recv_line t time u ≡ (ok line, v)
        → decode codec host timeout batch line ≡ answer (request_line codec args)
    pub all :
        (t : T) (calls : List (List (Value F))) (time : ℕ) (line : Text) (w u v : W)
        → host.send_line t (batched_request_line codec calls) w ≡ (true, u)
        → host.recv_line t time u ≡ (ok line, v)
        → results_of codec host timeout batch line (length calls)
          ≡ map (λ args. answer (request_line codec args)) calls

  -- A line was sent and one came back.
  abbrev pub Exchanged : Text → ℕ → Text → Type 0
  Exchanged request time line =
      (t : T) × (w u v : W) × (host.send_line t request w ≡ (true, u))
      × (host.recv_line t time u ≡ (ok line, v))

  -- The transport after a round trip: dropped after a failure, and there after a reply.
  abbrev pub Ended : Result CallError Text → Option T → Type 0
  Ended (ok line) transport = (t : T) × (transport ≡ some t)
  Ended (err e) transport = (transport ≡ none) × (is_transport e ≡ true)

  abbrev pub Same : WorkerInner F W T → WorkerInner F W T → Type 0
  Same s s' = (s'.prefetched ≡ s.prefetched) × (s'.collect ≡ s.collect)

  received-Same :
      (time count : ℕ) (r : Result Unfinished Text × W) (s : WorkerInner F W T)
      → Same s (received codec host timeout batch time count r s).1
  unfolding received
  received-Same time count (ok line, w) s = (refl, refl)
  received-Same time count (err timed_out, w) s = (refl, refl)
  received-Same time count (err closed, w) s = (refl, refl)

  sent-Same :
      (time count : ℕ) (t : T) (r : Bool × W) (s : WorkerInner F W T)
      → Same s (sent codec host timeout batch time count t r s).1
  unfolding sent
  sent-Same time count t (false, w) s = (refl, refl)
  sent-Same time count t (true, w) s = received-Same time count (host.recv_line t time w) s

  exchanged-Same :
      (request : Text) (time count : ℕ) (r : Result CallError T × WorkerInner F W T)
      → Same r.1 (exchanged codec host timeout batch request time count r).1
  unfolding exchanged
  exchanged-Same request time count (err e, s) = (refl, refl)
  exchanged-Same request time count (ok t, s) =
      sent-Same time count t (host.send_line t request s.world) s

  spawned-Same :
      (transport : Option T) (s : WorkerInner F W T)
      → Same s (spawned codec host timeout batch transport s).1
  unfolding spawned
  spawned-Same (some t) s = (refl, refl)
  spawned-Same none s = as_Same (host.spawn s.world) s
    where
      as_Same :
          (r : Result Text T × W) (s : WorkerInner F W T)
          → Same s (spawned_as codec host timeout batch r s).1
      as_Same (err e, w) s = (refl, refl)
      as_Same (ok t, w) s = (refl, refl)

  -- What a started transport and a failure to start leave.
  abbrev pub Started : Result CallError T → Option T → Type 0
  Started (ok t) transport = transport ≡ some t
  Started (err e) transport = (transport ≡ none) × (is_transport e ≡ true)

  spawned-Started :
      (transport : Option T) (s : WorkerInner F W T)
      → s.transport ≡ transport
      → Started
          (spawned codec host timeout batch transport s).0
          (spawned codec host timeout batch transport s).1.transport
  unfolding spawned spawned_as
  spawned-Started (some t) s h = h
  spawned-Started none s h = as_Started (host.spawn s.world) s h
    where
      as_Started :
          (r : Result Text T × W) (s : WorkerInner F W T)
          → s.transport ≡ none
          → Started
              (spawned_as codec host timeout batch r s).0
              (spawned_as codec host timeout batch r s).1.transport
      as_Started (err e, w) s h = (h, refl)
      as_Started (ok t, w) s h = refl

  received-Ended :
      (time count : ℕ) (t : T) (r : Result Unfinished Text × W) (s : WorkerInner F W T)
      → s.transport ≡ some t
      → Ended
          (received codec host timeout batch time count r s).0
          (received codec host timeout batch time count r s).1.transport
  unfolding received
  received-Ended time count t (ok line, w) s h = (t, h)
  received-Ended time count t (err timed_out, w) s h = (refl, refl)
  received-Ended time count t (err closed, w) s h = (refl, refl)

  sent-Ended :
      (time count : ℕ) (t : T) (r : Bool × W) (s : WorkerInner F W T)
      → s.transport ≡ some t
      → Ended
          (sent codec host timeout batch time count t r s).0
          (sent codec host timeout batch time count t r s).1.transport
  unfolding sent
  sent-Ended time count t (false, w) s h = (refl, refl)
  sent-Ended time count t (true, w) s h = received-Ended time count t (host.recv_line t time w) s h

  exchanged-Ended :
      (request : Text) (time count : ℕ) (r : Result CallError T × WorkerInner F W T)
      → Started r.0 r.1.transport
      → Ended
          (exchanged codec host timeout batch request time count r).0
          (exchanged codec host timeout batch request time count r).1.transport
  unfolding exchanged
  exchanged-Ended request time count (err e, s) h = h
  exchanged-Ended request time count (ok t, s) h =
      sent-Ended time count t (host.send_line t request s.world) s h

  -- After a failure of the transport there is none, so that the next request starts another, and the
  -- failure is one of the transport's; after a reply it is there for the next request. The replies in
  -- hand and the collect pass are as they were.
  pub exchange-Ended :
      (request : Text) (time count : ℕ) (s : WorkerInner F W T)
      → Ended
          (exchange codec host timeout batch request time count s).0
          (exchange codec host timeout batch request time count s).1.transport
        × Same s (exchange codec host timeout batch request time count s).1
  unfolding exchange
  exchange-Ended request time count s =
      let r = spawned codec host timeout batch s.transport s in
      let (first, second) = spawned-Same s.transport s in
      let (third, fourth) = exchanged-Same request time count r in
      (
        exchanged-Ended request time count r (spawned-Started s.transport s refl),
        (third ∙ first, fourth ∙ second),
      )

  received-line :
      (time count : ℕ) (line : Text) (r : Result Unfinished Text × W) (s : WorkerInner F W T)
      → (received codec host timeout batch time count r s).0 ≡ ok line
      → (v : W) × (r ≡ (ok line, v))
  unfolding received
  received-line time count line (ok l, w) s e = (w, ap (λ m. (ok m, w)) (same_line l line e))
    where
      same_line : (l line : Text) → ◌≡◌ {A = Result CallError Text} (ok l) (ok line) → l ≡ line
      same_line l line e = ground (arith, e)
  received-line time count line (err timed_out, w) s e = ground (arith, e)
  received-line time count line (err closed, w) s e = ground (arith, e)

  sent-line :
      (request : Text) (time count : ℕ) (line : Text) (t : T) (w : W) (r : Bool × W)
      (s : WorkerInner F W T)
      → host.send_line t request w ≡ r
      → (sent codec host timeout batch time count t r s).0 ≡ ok line
      → Exchanged request time line
  unfolding sent
  sent-line request time count line t w (false, u) s h e = ground (arith, e)
  sent-line request time count line t w (true, u) s h e =
      let (v, came) = received-line time count line (host.recv_line t time u) s e in
      (t, w, u, v, h, came)

  exchanged-line :
      (request : Text) (time count : ℕ) (line : Text) (r : Result CallError T × WorkerInner F W T)
      → (exchanged codec host timeout batch request time count r).0 ≡ ok line
      → Exchanged request time line
  unfolding exchanged
  exchanged-line request time count line (err e, s) h = ground (arith, h)
  exchanged-line request time count line (ok t, s) h =
      sent-line request time count line t s.world (host.send_line t request s.world) s refl h

  exchange-line :
      (request : Text) (time count : ℕ) (line : Text) (s : WorkerInner F W T)
      → (exchange codec host timeout batch request time count s).0 ≡ ok line
      → Exchanged request time line
  unfolding exchange
  exchange-line request time count line s e =
      exchanged-line request time count line (spawned codec host timeout batch s.transport s) e

  -- A reply to one call is the steady answer.
  pub exchange-one :
      (answer : Text → Answer F) (args : List (Value F)) (time count : ℕ) (line : Text)
      (s : WorkerInner F W T)
      → Steady answer
      → (exchange codec host timeout batch (request_line codec args) time count s).0 ≡ ok line
      → decode codec host timeout batch line ≡ answer (request_line codec args)
  exchange-one answer args time count line s steady e =
      let (t, w, u, v, sent, came) = exchange-line (request_line codec args) time count line s e in
      steady.one t args time line w u v sent came

  pub exchange-all :
      (answer : Text → Answer F) (calls : List (List (Value F))) (time count : ℕ) (line : Text)
      (s : WorkerInner F W T)
      → Steady answer
      → (exchange codec host timeout batch (batched_request_line codec calls) time count s).0
        ≡ ok line
      → results_of codec host timeout batch line (length calls)
        ≡ map (λ args. answer (request_line codec args)) calls
  exchange-all answer calls time count line s steady e =
      let (t, w, u, v, sent, came) =
        exchange-line (batched_request_line codec calls) time count line s e in
      steady.all t calls time line w u v sent came
