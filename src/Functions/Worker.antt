-- ===== src/Functions/Worker.antt =====
-- packages/rust/src/functions.rs (`Worker`): the calls of one function, and the collect pass that
-- gathers a statement's calls into batched requests. The process is behind `Host`, whose operations
-- pass on a state of type `W`; `T` is a handle of a running process. A poisoned mutex is left out. An
-- error holds what its message is written from, and durations are nanoseconds.
pub mod Exchange
pub mod Prefetched
pub mod Runs
pub mod Flushed
pub mod Gathered
pub mod Replayed
use dirsql.Prelude.{
  ℕ, zero, suc, ◌+◌, ◌-◌, ◌*◌, ◌^◌, min, ◌≡◌, refl, Bool, true, false, Option, none, some, List, [],
  ◌∷◌, ◌++◌, map, Text, text_eq, length, any, leb, if◌then◌else◌,
}
use dirsql.Value.{Value}
use dirsql.Functions.Wire.{
  Result, ok, err, Defect, Reply, Response, answered, refused, Codec, repeated, request_line,
  batched_request_line, parse_response, parse_batched_response,
}

pub data Unfinished : Type 0 where
  timed_out closed : Unfinished

pub data CallError : Type 0 where
  not_started : Text → CallError
  not_accepting : CallError
  out_of_time : ℕ → ℕ → CallError
  exited : CallError
  invalid_response : Defect → Text → CallError
  invalid_batch : Defect → Text → CallError
  reported : Text → CallError

pub data Done : Type 0 where
  done : Done

-- The spawner, the transport and the reporter of calls.
pub record Host (W T : Type 0) : Type 0 where
  pub spawn : W → Result Text T × W
  pub send_line : T → Text → W → Bool × W
  pub recv_line : T → ℕ → W → Result Unfinished Text × W
  pub record_call : W → W
  pub mark_cached : W → W

pub record Collect (F : Type 0) : Type 0 where
  pub invoked : Bool
  pub placeholder : Option (Value F)
  pub pending : List (List (Value F))
  pub queued : List Text

abbrev pub Answer : Type 0 → Type 0
Answer F = Result CallError (Reply F)

-- `WorkerInner`, with the state of its host.
pub record WorkerInner (F W T : Type 0) : Type 0 where
  pub transport : Option T
  pub collect : Option (Collect F)
  pub prefetched : List (Text × Answer F)
  pub world : W

-- `HashMap::get` and `insert`, `HashSet::contains`
unfoldable pub lookup : {A : Type 0} → Text → List (Text × A) → Option A
lookup k [] = none
lookup k ((j, a) ∷ rest) = if text_eq j k then some a else lookup k rest

unfoldable pub put : {A : Type 0} → Text → A → List (Text × A) → List (Text × A)
put k a [] = (k, a) ∷ []
put k a ((j, b) ∷ rest) = if text_eq j k then (j, a) ∷ rest else (j, b) ∷ put k a rest

abbrev pub contains : Text → List Text → Bool
contains k keys = any (text_eq k) keys

abbrev pub with_key : Text → List Text → List Text
with_key k keys = if contains k keys then keys else k ∷ keys

-- The largest `Duration`, and `saturating_mul` by a count of at most 32 bits.
abbrev pub duration_max : ℕ
duration_max = 2 ^ 64 * 1000000000 - 1

abbrev pub times : ℕ → ℕ → ℕ
times timeout count = min (timeout * min count (2 ^ 32 - 1)) duration_max

abbrev pub is_null : {F : Type 0} → Value F → Bool
is_null Value.null = true
is_null _ = false

-- `Some(len) >= batch`
abbrev pub is_due : ℕ → Option ℕ → Bool
is_due len none = true
is_due len (some batch) = leb batch len

module _ {F W T : Type 0} (codec : Codec F) (host : Host W T) (timeout : ℕ) (batch : Option ℕ) where
  unfoldable pub spawned_as :
      Result Text T × W → WorkerInner F W T → Result CallError T × WorkerInner F W T
  spawned_as (err e, w) s = (err (not_started e), record s { world = w })
  spawned_as (ok t, w) s = (ok t, record s { transport = some t; world = w })

  unfoldable pub spawned : Option T → WorkerInner F W T → Result CallError T × WorkerInner F W T
  unfolding spawned_as
  spawned (some t) s = (ok t, s)
  spawned none s = spawned_as (host.spawn s.world) s

  unfoldable pub received :
      ℕ
      → ℕ
      → Result Unfinished Text × W
      → WorkerInner F W T
      → Result CallError Text × WorkerInner F W T
  received time count (ok line, w) s = (ok line, record s { world = w })
  received time count (err timed_out, w) s =
      (err (out_of_time time count), record s { transport = none; world = w })
  received time count (err closed, w) s = (err exited, record s { transport = none; world = w })

  unfoldable pub sent :
      ℕ → ℕ → T → Bool × W → WorkerInner F W T → Result CallError Text × WorkerInner F W T
  unfolding received
  sent time count t (false, w) s = (err not_accepting, record s { transport = none; world = w })
  sent time count t (true, w) s = received time count (host.recv_line t time w) s

  unfoldable pub exchanged :
      Text
      → ℕ
      → ℕ
      → Result CallError T × WorkerInner F W T
      → Result CallError Text × WorkerInner F W T
  unfolding sent
  exchanged request time count (err e, s) = (err e, s)
  exchanged request time count (ok t, s) = sent time count t (host.send_line t request s.world) s

  unfoldable pub exchange :
      Text → ℕ → ℕ → WorkerInner F W T → Result CallError Text × WorkerInner F W T
  unfolding spawned exchanged
  exchange request time count s = exchanged request time count (spawned s.transport s)

  -- `Ok` and `Err` of a response.
  abbrev pub answer_of : Response F → Answer F
  answer_of (answered reply) = ok reply
  answer_of (refused message) = err (reported message)

  unfoldable pub decode : Text → Answer F
  unfolding parse_response
  decode line = elim (parse_response codec line) [
    | ok response ↦ answer_of response
    | err defect ↦ err (invalid_response defect line)
  ]

  abbrev pub decoded : Result CallError Text → Answer F
  decoded (ok line) = decode line
  decoded (err e) = err e

  -- The count of cached replies.
  unfoldable pub counted : Answer F → W → W
  counted (ok reply) w = if reply.cached then host.mark_cached w else w
  counted (err e) w = w

  -- The placeholder after a reply.
  unfoldable pub held : Answer F → Option (Value F) → Option (Value F)
  held (ok reply) old = if is_null reply.value then old else some reply.value
  held (err e) old = old

  -- The rest of a round trip, for the collect pass that is open.
  unfoldable pub kept : Text → Answer F → Option (Collect F) → WorkerInner F W T → WorkerInner F W T
  unfolding put held
  kept key answer none s = s
  kept key answer (some c) s = record s {
    collect =
        some (record c { placeholder = held answer c.placeholder; queued = with_key key c.queued });
    prefetched = put key answer s.prefetched;
  }

  unfoldable pub trip :
      Text → Result CallError Text × WorkerInner F W T → Answer F × WorkerInner F W T
  unfolding decode counted kept
  trip key (result, s) = (
    decoded result,
    kept key (decoded result) s.collect (record s { world = counted (decoded result) s.world }),
  )

  unfoldable pub round_trip : Text → WorkerInner F W T → Answer F × WorkerInner F W T
  unfolding exchange trip
  round_trip key s =
      trip key (exchange key timeout 1 (record s { world = host.record_call s.world }))

  -- One reply of a batched request, filed under its request line.
  unfoldable pub filed : List (Value F) → Answer F → WorkerInner F W T → WorkerInner F W T
  unfolding put counted
  filed args answer s = record s {
    prefetched = put (request_line codec args) answer s.prefetched;
    world = counted answer (host.record_call s.world);
  }

  unfoldable pub file :
      List (List (Value F)) → List (Answer F) → WorkerInner F W T → WorkerInner F W T
  unfolding filed
  file [] answers s = s
  file (args ∷ pending) [] s = s
  file (args ∷ pending) (answer ∷ answers) s = file pending answers (filed args answer s)

  -- An invalid batched response fails each call of the request.
  unfoldable pub results_of : Text → ℕ → List (Answer F)
  unfolding parse_batched_response
  results_of line count = elim (parse_batched_response codec line count) [
    | ok results ↦ map answer_of results
    | err defect ↦ repeated (err (invalid_batch defect line)) count
  ]

  unfoldable pub file_all :
      List (List (Value F))
      → Result CallError Text × WorkerInner F W T
      → Result CallError Done × WorkerInner F W T
  unfolding file results_of
  file_all pending (err e, s) = (err e, s)
  file_all pending (ok line, s) = (ok done, file pending (results_of line (length pending)) s)

  unfoldable pub flush_pending :
      Collect F
      → List (List (Value F))
      → WorkerInner F W T
      → Result CallError Done × WorkerInner F W T
  unfolding exchange file_all
  flush_pending c [] s = (ok done, s)
  flush_pending c (args ∷ rest) s = file_all (args ∷ rest) (
      exchange (batched_request_line codec (args ∷ rest)) (times timeout (length (args ∷ rest)))
        (length (args ∷ rest)) (record s { collect = some (record c { pending = [] }) }))

  unfoldable pub flush_from :
      Option (Collect F) → WorkerInner F W T → Result CallError Done × WorkerInner F W T
  unfolding flush_pending
  flush_from none s = (ok done, s)
  flush_from (some c) s = flush_pending c c.pending s

  unfoldable pub flush : WorkerInner F W T → Result CallError Done × WorkerInner F W T
  unfolding flush_from
  flush s = flush_from s.collect s

  unfoldable pub answer_with :
      Value F → Result CallError Done × WorkerInner F W T → Answer F × WorkerInner F W T
  answer_with value (ok d, s) = (ok (record { value = value; cached = false }), s)
  answer_with value (err e, s) = (err e, s)

  -- The queue has the tuple now, and is sent when it is due.
  unfoldable pub queue : Collect F → WorkerInner F W T → Result CallError Done × WorkerInner F W T
  unfolding flush
  queue c s =
      if is_due (length c.pending) batch
      then flush (record s { collect = some c })
      else (ok done, record s { collect = some c })

  -- A call that gets the placeholder. A tuple that is queued already adds nothing.
  unfoldable pub stand_in :
      List (Value F) → Text → Value F → Collect F → WorkerInner F W T → Answer F × WorkerInner F W T
  unfolding queue answer_with
  stand_in args key value c s = answer_with value (
      if contains key c.queued
      then (ok done, record s { collect = some (record c { invoked = true }) })
      else queue
          (record c { invoked = true; pending = c.pending ++ args ∷ []; queued = key ∷ c.queued })
          s)

  unfoldable pub with_placeholder :
      List (Value F)
      → Text
      → Collect F
      → Option (Value F)
      → WorkerInner F W T
      → Answer F × WorkerInner F W T
  unfolding stand_in round_trip
  with_placeholder args key c none s =
      round_trip key (record s { collect = some (record c { invoked = true }) })
  with_placeholder args key c (some value) s = stand_in args key value c s

  unfoldable pub collecting :
      List (Value F) → Text → Option (Collect F) → WorkerInner F W T → Answer F × WorkerInner F W T
  unfolding with_placeholder round_trip
  collecting args key none s = round_trip key s
  collecting args key (some c) s = with_placeholder args key c c.placeholder s

  -- A reply in hand answers the call.
  unfoldable pub in_hand :
      List (Value F) → Option (Answer F) → WorkerInner F W T → Answer F × WorkerInner F W T
  unfolding collecting
  in_hand args (some answer) s = (answer, s)
  in_hand args none s = collecting args (request_line codec args) s.collect s

  unfoldable pub call : List (Value F) → WorkerInner F W T → Answer F × WorkerInner F W T
  unfolding lookup in_hand
  call args s = in_hand args (lookup (request_line codec args) s.prefetched) s

  abbrev pub new_collect : Collect F
  new_collect = record { invoked = false; placeholder = none; pending = []; queued = [] }

  unfoldable pub begun : Option ℕ → WorkerInner F W T → WorkerInner F W T
  begun none s = record s { prefetched = [] }
  begun (some n) s = record s { prefetched = []; collect = some new_collect }

  unfoldable pub begin_collect : WorkerInner F W T → WorkerInner F W T
  unfolding begun
  begin_collect s = begun batch s

  abbrev pub is_invoked : Option (Collect F) → Bool
  is_invoked none = false
  is_invoked (some c) = c.invoked

  unfoldable pub ended :
      Result CallError Done × WorkerInner F W T → Result CallError Bool × WorkerInner F W T
  ended (ok d, s) = (ok (is_invoked s.collect), record s { collect = none })
  ended (err e, s) = (err e, record s { collect = none })

  unfoldable pub end_collect : WorkerInner F W T → Result CallError Bool × WorkerInner F W T
  unfolding flush ended
  end_collect s = ended (flush s)

  unfoldable pub clear : WorkerInner F W T → WorkerInner F W T
  clear s = record s { collect = none; prefetched = [] }
