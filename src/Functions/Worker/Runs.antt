-- ===== src/Functions/Worker/Runs.antt =====
-- packages/rust/src/functions.rs (`Worker`): what a call comes to after any calls and collect passes.
use dirsql.Prelude.{
  ℕ, ◌≡◌, refl, ◌⊎◌, inl, inr, true, Option, none, some, List, [], ◌∷◌, Text, arith,
}
use dirsql.Value.{Value}
use dirsql.Functions.Wire.{Result, ok, err, Codec, request_line}
use dirsql.Functions.Worker.{
  CallError, Done, Host, Collect, Answer, WorkerInner, lookup, exchange, decode, trip, round_trip,
  flush, collecting, in_hand, call, begun, begin_collect, end_collect, ended, clear,
}
use dirsql.Functions.Worker.Exchange.{is_transport, Steady, Ended, exchange-Ended, exchange-one}
use dirsql.Functions.Worker.Prefetched.{flush-InHand, call-InHand}

-- What may happen to a worker.
pub data Op (F : Type 0) : Type 0 where
  begins ends clears : Op F
  calls : List (Value F) → Op F

module _ {F W T : Type 0} (codec : Codec F) (host : Host W T) (timeout : ℕ) (batch : Option ℕ) where
  abbrev pub run_op : Op F → WorkerInner F W T → WorkerInner F W T
  run_op begins s = begin_collect codec host timeout batch s
  run_op ends s = (end_collect codec host timeout batch s).1
  run_op clears s = clear codec host timeout batch s
  run_op (calls args) s = (call codec host timeout batch args s).1

  abbrev pub run_ops : List (Op F) → WorkerInner F W T → WorkerInner F W T
  run_ops [] s = s
  run_ops (o ∷ ops) s = run_ops ops (run_op o s)

  module _ (answer : Text → Answer F) where
    -- The worker's answer, or a failure of its transport.
    abbrev pub IsReply : Text → Answer F → Type 0
    IsReply key a = (a ≡ answer key) ⊎ ((e : CallError) × (a ≡ err e) × (is_transport e ≡ true))

    trip-IsReply :
        (key : Text) (r : Result CallError Text × WorkerInner F W T)
        → ((line : Text) → r.0 ≡ ok line → decode codec host timeout batch line ≡ answer key)
        → Ended codec host timeout batch r.0 r.1.transport
        → IsReply key (trip codec host timeout batch key r).0
    unfolding trip
    trip-IsReply key (ok line, s) given h = inl (given line refl)
    trip-IsReply key (err e, s) given (dropped, h) = inr (e, refl, h)

    module _ (steady : Steady codec host timeout batch answer) where
      pub round_trip-IsReply :
          (args : List (Value F)) (s : WorkerInner F W T)
          → IsReply
              (request_line codec args)
              (round_trip codec host timeout batch (request_line codec args) s).0
      unfolding round_trip
      round_trip-IsReply args s =
          let key = request_line codec args in
          let t : WorkerInner F W T = record s { world = host.record_call s.world } in
          trip-IsReply key (exchange codec host timeout batch key timeout 1 t)
            (λ line e. exchange-one codec host timeout batch answer args timeout 1 line t steady e)
            ((exchange-Ended codec host timeout batch key timeout 1 t).0)

      abbrev AllReplies : WorkerInner F W T → Type 0
      AllReplies s = (key : Text) (a : Answer F) → lookup key s.prefetched ≡ some a → IsReply key a

      ended-AllReplies :
          (r : Result CallError Done × WorkerInner F W T)
          → AllReplies r.1
          → AllReplies (ended codec host timeout batch r).1
      unfolding ended
      ended-AllReplies (ok d, s) h = h
      ended-AllReplies (err e, s) h = h

      none_in_hand : (key : Text) (a : Answer F) → lookup key [] ≡ some a → IsReply key a
      unfolding lookup
      none_in_hand key a e = ground (arith, e)

      begun-AllReplies :
          (o : Option ℕ) (s : WorkerInner F W T) → AllReplies (begun codec host timeout batch o s)
      unfolding begun
      begun-AllReplies none s = none_in_hand
      begun-AllReplies (some n) s = none_in_hand

      run_op-AllReplies :
          (o : Op F) (s : WorkerInner F W T) → AllReplies s → AllReplies (run_op o s)
      unfolding begin_collect end_collect clear
      run_op-AllReplies begins s h = begun-AllReplies batch s
      run_op-AllReplies ends s h =
          ended-AllReplies (flush codec host timeout batch s)
            (flush-InHand codec host timeout batch IsReply answer steady (λ args. inl refl) s h)
      run_op-AllReplies clears s h = none_in_hand
      run_op-AllReplies (calls args) s h =
          call-InHand codec host timeout batch IsReply answer steady (λ args. inl refl) args s
            (λ t e. round_trip-IsReply args t) h

      run_ops-AllReplies :
          (ops : List (Op F)) (s : WorkerInner F W T) → AllReplies s → AllReplies (run_ops ops s)
      run_ops-AllReplies [] s h = h
      run_ops-AllReplies (o ∷ ops) s h =
          run_ops-AllReplies ops (run_op o s) (run_op-AllReplies o s h)

      collecting-IsReply :
          (args : List (Value F)) (o : Option (Collect F)) (s : WorkerInner F W T)
          → o ≡ none
          → IsReply
              (request_line codec args)
              (collecting codec host timeout batch args (request_line codec args) o s).0
      unfolding collecting
      collecting-IsReply args none s e = round_trip-IsReply args s
      collecting-IsReply args (some c) s e = ground (arith, e)

      in_hand-IsReply :
          (args : List (Value F)) (o : Option (Answer F)) (s : WorkerInner F W T)
          → lookup (request_line codec args) s.prefetched ≡ o
          → AllReplies s
          → s.collect ≡ none
          → IsReply (request_line codec args) (in_hand codec host timeout batch args o s).0
      unfolding in_hand
      in_hand-IsReply args (some a) s e h closed = h (request_line codec args) a e
      in_hand-IsReply args none s e h closed = collecting-IsReply args s.collect s closed

  -- After any run of calls, collect passes and clearings of a new worker whose process answers a request
  -- always alike, a call outside a collect pass gets the process's answer to it, or a failure of the
  -- transport: never a placeholder, and never a reply to another request.
  pub call-IsReply :
      (answer : Text → Answer F) (ops : List (Op F)) (args : List (Value F)) (s : WorkerInner F W T)
      → Steady codec host timeout batch answer
      → s.prefetched ≡ []
      → (run_ops ops s).collect ≡ none
      → IsReply answer
          (request_line codec args)
          (call codec host timeout batch args (run_ops ops s)).0
  unfolding call
  call-IsReply answer ops args s steady fresh closed =
      let t = run_ops ops s in
      in_hand-IsReply answer steady args (lookup (request_line codec args) t.prefetched) t refl
        (run_ops-AllReplies answer steady ops s (rw fresh (none_in_hand answer steady))) closed
