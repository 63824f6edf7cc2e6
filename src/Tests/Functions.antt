-- ===== src/Tests/Functions.antt =====
-- A function's worker, on a small host: a process that replies with the number of its arguments.
use dirsql.Prelude.{
  ℕ, zero, suc, ◌≡◌, refl, sym, ap, ap₂, ◌∙◌, Bool, true, false, Option, none, some, List, [], ◌∷◌,
  map, Text, codes, text_eq, length, length-map, ◌==◌, ==_iff, if◌then◌else◌, arith,
}
use dirsql.Prelude.Int.{pos}
use dirsql.Value.{Value, integer, real}
use dirsql.Functions.Wire.{
  Result, ok, err, Wire, number, object, array, entry_before, no_entries, wires_of, as_list, Codec,
  Reply, Response, answered, request_line, batched_request_line, json_get, value_to_json,
  json_to_sql_value, parse_response_value, parse_response, each_response, parse_batched_response,
  wrong_count, named, ok_or_err, batch_or_err, cached_flag,
}
use dirsql.Functions.Wire.Values.{sent_as, json_to_sql_value-value_to_json}
use dirsql.Functions.Worker.{
  Host, WorkerInner, Unfinished, exchange, Answer, decode, answer_of, results_of, begin_collect,
  end_collect, clear, call,
}
use dirsql.Functions.Worker.Exchange.{Steady, Ended, Same, exchange-Ended}
use dirsql.Functions.Worker.Runs.{calls, clears, run_ops, IsReply, call-IsReply}
use dirsql.Functions.Worker.Gathered.{gather}
use dirsql.Functions.Worker.Replayed.{end_collect-call}

abbrev counts : List (Wire ℕ) → Text
counts [] = []
counts (array ws ∷ rest) = length (as_list ws) ∷ counts rest
counts (w ∷ rest) = 0 ∷ counts rest

-- A request as its name and the lengths of its argument lists.
abbrev printed : Wire ℕ → Text
printed (object (entry_before name (array ws) no_entries)) =
    if text_eq name (codes "call") then 0 ∷ length (as_list ws) ∷ [] else 1 ∷ counts (as_list ws)
printed w = []

abbrev one_result : ℕ → Wire ℕ
one_result n = object (entry_before (codes "ok") (number (pos n)) no_entries)

abbrev parsed : Text → Option (Wire ℕ)
parsed (zero ∷ n ∷ []) = some (one_result n)
parsed (suc k ∷ ns) =
    some (object (entry_before (codes "results") (array (wires_of (map one_result ns))) no_entries))
parsed s = none

abbrev codec : Codec ℕ
codec = record {
  from_str = parsed;
  to_string = printed;
  is_finite = λ f. f == 1;
  encode = λ bytes. bytes;
  decode = λ s. some s;
}

-- The process echoes the last line, which is its state.
abbrev host : Host Text ℕ
host = record {
  spawn = λ w. (ok 7, w);
  send_line = λ t request w. (true, request);
  recv_line = λ t time w. (ok w, w);
  record_call = λ w. w;
  mark_cached = λ w. w;
}

abbrev batch : Option ℕ
batch = some 2

abbrev answer : Text → Answer ℕ
answer line = decode codec host 1000 batch line

abbrev arity : List (Value ℕ) → ℕ
arity args = length (as_list (wires_of (map (λ v. value_to_json codec v) args)))

abbrev reply_of : ℕ → Reply ℕ
reply_of n = record { value = integer (pos n); cached = false }

as_list-wires_of : (ws : List (Wire ℕ)) → as_list (wires_of ws) ≡ ws
as_list-wires_of [] = refl
as_list-wires_of (w ∷ ws) = ap (λ l. w ∷ l) (as_list-wires_of ws)

each_reply :
    (i : ℕ) (ns : List ℕ)
    → each_response codec i (map one_result ns) ≡ ok (map (λ n. answered (reply_of n)) ns)
unfolding each_response parse_response_value ok_or_err json_get json_to_sql_value cached_flag named
each_reply i [] = refl
each_reply i (n ∷ ns) = rw (each_reply (suc i) ns) refl

parsed_results :
    (ns : List ℕ) (n : ℕ)
    → length ns ≡ n
    → parse_batched_response codec (1 ∷ ns) n ≡ ok (map (λ k. answered (reply_of k)) ns)
unfolding parse_batched_response batch_or_err json_get
parsed_results ns n e =
    let same_count : (length (map one_result ns) == n) ≡ true =
      (==_iff (length (map one_result ns)) n).1 (length-map one_result ns ∙ e) in
    ap (λ ws. if length ws == n then each_response codec 0 ws else err (wrong_count n (length ws)))
      (as_list-wires_of (map one_result ns))
    ∙ ap
        (λ c.
          if c
          then each_response codec 0 (map one_result ns)
          else err (wrong_count n (length (map one_result ns))))
        same_count
    ∙ each_reply 0 ns

results_of-parsed :
    (line : Text) (n : ℕ) (rs : List (Response ℕ))
    → parse_batched_response codec line n ≡ ok rs
    → results_of codec host 1000 batch line n ≡ map (λ r. answer_of codec host 1000 batch r) rs
unfolding results_of
results_of-parsed line n rs e = rw (results_of, e) refl

results_of-counts :
    (ns : List ℕ) (n : ℕ)
    → length ns ≡ n
    → results_of codec host 1000 batch (1 ∷ ns) n ≡ map (λ k. ok (reply_of k)) ns
results_of-counts ns n e =
    results_of-parsed (1 ∷ ns) n (map (λ k. answered (reply_of k)) ns) (parsed_results ns n e)
    ∙ answers ns
  where
    answers :
        (ns : List ℕ)
        → map (λ r. answer_of codec host 1000 batch r) (map (λ n. answered (reply_of n)) ns)
          ≡ map (λ k. ok (reply_of k)) ns
    answers [] = refl
    answers (n ∷ ns) = ap (λ l. ok (reply_of n) ∷ l) (answers ns)

counts-calls : (cs : List (List (Value ℕ))) → batched_request_line codec cs ≡ 1 ∷ map arity cs
unfolding batched_request_line value_to_json
counts-calls cs = ap (λ l. 1 ∷ l) (each cs)
  where
    each :
        (cs : List (List (Value ℕ)))
        → counts (
            as_list (
              wires_of (map (λ args. array (wires_of (map (λ v. value_to_json codec v) args))) cs)))
          ≡ map arity cs
    each [] = refl
    each (c ∷ cs) = ap (λ l. arity c ∷ l) (each cs)

one_answer : (args : List (Value ℕ)) → answer (request_line codec args) ≡ ok (reply_of (arity args))
unfolding decode parse_response request_line value_to_json parse_response_value ok_or_err json_get
    json_to_sql_value cached_flag
one_answer args = refl

all_answers :
    (cs : List (List (Value ℕ)))
    → results_of codec host 1000 batch (batched_request_line codec cs) (length cs)
      ≡ map (λ args. answer (request_line codec args)) cs
all_answers cs =
    ap (λ line. results_of codec host 1000 batch line (length cs)) (counts-calls cs)
    ∙ results_of-counts (map arity cs) (length cs) (length-map arity cs)
    ∙ each cs
  where
    each :
        (cs : List (List (Value ℕ)))
        → map (λ k. ok (reply_of k)) (map arity cs)
          ≡ map (λ args. answer (request_line codec args)) cs
    each [] = refl
    each (c ∷ cs) = ap₂ (λ a l. a ∷ l) (sym (one_answer c)) (each cs)

echoed :
    (request line w u v : Text)
    → ◌≡◌ {A = Bool × Text} (true, request) (true, u)
    → ◌≡◌ {A = Result Unfinished Text × Text} (ok u, u) (ok line, v)
    → line ≡ request
echoed request line w u v sent came =
    sym (received_line u line (ap (λ (r : Result Unfinished Text × Text). r.0) came))
    ∙ sym (ap (λ (r : Bool × Text). r.1) sent)
  where
    received_line : (u line : Text) → ◌≡◌ {A = Result Unfinished Text} (ok u) (ok line) → u ≡ line
    received_line u line e = ground (arith, e)

steady : Steady codec host 1000 batch answer
steady = record {
  one = λ t args time line w u v sent came.
      ap answer (echoed (request_line codec args) line w u v sent came);
  all = λ t cs time line w u v sent came.
      ap (λ l. results_of codec host 1000 batch l (length cs))
        (echoed (batched_request_line codec cs) line w u v sent came)
      ∙ all_answers cs;
}

abbrev opened : WorkerInner ℕ Text ℕ
opened = record { transport = none; collect = none; prefetched = []; world = [] }

abbrev tuple : ℕ → List (Value ℕ)
tuple zero = []
tuple (suc n) = integer (pos n) ∷ tuple n

call-IsReply_example :
    IsReply codec host 1000 batch answer
      (request_line codec (tuple 2))
      (call codec host 1000 batch
        (tuple 2)
        (run_ops codec host 1000 batch (calls (tuple 1) ∷ clears ∷ []) opened)).0
unfolding clear
call-IsReply_example =
    call-IsReply codec host 1000 batch answer (calls (tuple 1) ∷ clears ∷ []) (tuple 2) opened
      steady refl refl

json_to_sql_value-value_to_json_example :
    json_to_sql_value codec (value_to_json codec (real 2)) ≡ ok (sent_as codec (real 2))
json_to_sql_value-value_to_json_example =
    json_to_sql_value-value_to_json codec (real 2) (λ bytes. refl)

exchange-Ended_example :
    Ended codec host 1000 batch
      (exchange codec host 1000 batch (codes "x") 5 1 opened).0
      (exchange codec host 1000 batch (codes "x") 5 1 opened).1.transport
    × Same codec host 1000 batch opened (exchange codec host 1000 batch (codes "x") 5 1 opened).1
exchange-Ended_example = exchange-Ended codec host 1000 batch (codes "x") 5 1 opened

abbrev statement : List (List (Value ℕ))
statement = tuple 1 ∷ tuple 2 ∷ tuple 1 ∷ tuple 3 ∷ tuple 4 ∷ []

abbrev gathered_in : Option (WorkerInner ℕ Text ℕ) → WorkerInner ℕ Text ℕ
gathered_in none = opened
gathered_in (some s) = s

abbrev last_gathered : WorkerInner ℕ Text ℕ
last_gathered =
    gathered_in
      (gather codec host 1000 batch statement (begin_collect codec host 1000 batch opened))

gathers :
    gather codec host 1000 batch statement (begin_collect codec host 1000 batch opened)
    ≡ some last_gathered
unfolding gather call begin_collect request_line batched_request_line
gathers = refl

ended_well :
    end_collect codec host 1000 batch last_gathered
    ≡ (ok true, (end_collect codec host 1000 batch last_gathered).1)
unfolding gather end_collect call begin_collect request_line batched_request_line
ended_well = refl

end_collect-call_example :
    (true ≡ true)
    × (call codec host 1000 batch (tuple 3) (end_collect codec host 1000 batch last_gathered).1 ≡ (
      answer (request_line codec (tuple 3)),
      (end_collect codec host 1000 batch last_gathered).1,
    ))
end_collect-call_example =
    end_collect-call codec host 1000 batch answer steady statement 2 opened last_gathered
      (end_collect codec host 1000 batch last_gathered).1 true 3 (tuple 3) refl gathers ended_well
      refl
