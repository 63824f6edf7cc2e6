-- ===== src/Functions/Worker/Replayed.antt =====
-- packages/rust/src/functions.rs (`Worker`): a statement's real run after its collect pass.
use dirsql.Prelude.{
  ℕ, zero, suc, ◌≡◌, refl, sym, ap, ◌∙◌, ◌⊎◌, inl, inr, Bool, true, Option, none, some, List, [],
  ◌∷◌, Text, get_elem?, arith,
}
use dirsql.Value.{Value}
use dirsql.Functions.Wire.{Result, ok, err, Reply, Codec, request_line}
use dirsql.Functions.Worker.{
  CallError, Done, done, Host, Collect, Answer, WorkerInner, lookup, new_collect, is_invoked, flush,
  with_placeholder, collecting, in_hand, call, begun, begin_collect, end_collect, ended,
}
use dirsql.Functions.Worker.Exchange.{Steady}
use dirsql.Functions.Worker.Prefetched.{flush-InHand, call-InHand}
use dirsql.Functions.Worker.Runs.{round_trip-IsReply}
use dirsql.Functions.Worker.Flushed.{Held, flush-Flushed}
use dirsql.Functions.Worker.Gathered.{
  gather, gathered, Gained, Covered, round_trip-Gained, stand_in-Gained,
}

module _ {F W T : Type 0} (codec : Codec F) (host : Host W T) (timeout : ℕ) (batch : Option ℕ)
    (answer : Text → Answer F) (steady : Steady codec host timeout batch answer) where
  -- An open collect pass in which nothing has failed.
  record Gathering (s : WorkerInner F W T) (c : Collect F) : Type 0 where
    opened : s.collect ≡ some c
    replies : (key : Text) (a : Answer F) → lookup key s.prefetched ≡ some a → a ≡ answer key
    covered : Covered codec host timeout batch c s.prefetched
    started : (c.invoked ≡ true) ⊎ (s.prefetched ≡ [])

  with_placeholder-Gained :
      (args : List (Value F)) (c : Collect F) (o : Option (Value F)) (reply : Reply F)
      (s : WorkerInner F W T)
      → Covered codec host timeout batch c s.prefetched
      → (with_placeholder codec host timeout batch args (request_line codec args) c o s).0
        ≡ ok reply
      → Gained codec host timeout batch
          (request_line codec args)
          c
          s.prefetched
          (with_placeholder codec host timeout batch args (request_line codec args) c o s).1
  unfolding with_placeholder
  with_placeholder-Gained args c none reply s covered fine =
      let (c', opened, invoked, queued, more, here) =
        round_trip-Gained codec host timeout batch (request_line codec args)
          (record c { invoked = true }) (record s { collect = some (record c { invoked = true }) })
          refl refl covered in
      (c', opened, invoked, queued, more, here)
  with_placeholder-Gained args c (some value) reply s covered fine =
      stand_in-Gained codec host timeout batch answer args value reply c s steady covered fine

  collecting-Gained :
      (args : List (Value F)) (c : Collect F) (o : Option (Collect F)) (reply : Reply F)
      (s : WorkerInner F W T)
      → o ≡ some c
      → Covered codec host timeout batch c s.prefetched
      → (collecting codec host timeout batch args (request_line codec args) o s).0 ≡ ok reply
      → Gained codec host timeout batch
          (request_line codec args)
          c
          s.prefetched
          (collecting codec host timeout batch args (request_line codec args) o s).1
  unfolding collecting
  collecting-Gained args c none reply s e covered fine = ground (arith, e)
  collecting-Gained args c (some d) reply s e covered fine =
      let same : d ≡ c = ground (arith, e) in
      let fine' = rw same at fine in
      rw same (with_placeholder-Gained args c c.placeholder reply s covered fine')

  in_hand-Gained :
      (args : List (Value F)) (c : Collect F) (o : Option (Answer F)) (reply : Reply F)
      (s : WorkerInner F W T)
      → lookup (request_line codec args) s.prefetched ≡ o
      → Gathering s c
      → (in_hand codec host timeout batch args o s).0 ≡ ok reply
      → Gained codec host timeout batch
          (request_line codec args)
          c
          s.prefetched
          (in_hand codec host timeout batch args o s).1
  unfolding in_hand lookup
  in_hand-Gained args c none reply s e h fine =
      collecting-Gained args c s.collect reply s h.opened h.covered fine
  in_hand-Gained args c (some a) reply s e h fine =
      (c, h.opened, was_invoked h.started, h.covered, λ k g. g, inl (a, e))
    where
      nothing : none ≡ some a → ⊥
      nothing e = ground (arith, e)

      was_invoked : ((c.invoked ≡ true) ⊎ (s.prefetched ≡ [])) → c.invoked ≡ true
      was_invoked (inl invoked) = invoked
      was_invoked (inr empty) =
          absurd (nothing (sym (ap (lookup (request_line codec args)) empty) ∙ e))

  -- One call that succeeds.
  call-Gathering :
      (args : List (Value F)) (c : Collect F) (reply : Reply F) (s : WorkerInner F W T)
      → Gathering s c
      → (call codec host timeout batch args s).0 ≡ ok reply
      → (c' : Collect F) × Gathering (call codec host timeout batch args s).1 c'
        × (c'.invoked ≡ true)
        × ((k : Text)
            → Held codec host timeout batch k c.pending s.prefetched
            → Held codec host timeout batch k c'.pending
                (call codec host timeout batch args s).1.prefetched)
        × Held codec host timeout batch
            (request_line codec args)
            c'.pending
            (call codec host timeout batch args s).1.prefetched
  unfolding call
  call-Gathering args c reply s h fine =
      let o = lookup (request_line codec args) s.prefetched in
      let (c', opened, invoked, queued, more, here) = in_hand-Gained args c o reply s refl h fine in
      let kept =
        call-InHand codec host timeout batch (λ key a. a ≡ answer key) answer steady (λ x. refl)
          args s
          (λ t e. elim (round_trip-IsReply codec host timeout batch answer steady args t) [
            | inl good ↦ good
            | inr (failure, failed, transport) ↦
                absurd (clash failure reply (sym failed ∙ e ∙ fine))
          ])
          h.replies in
      (
        c',
        record { opened = opened; replies = kept; covered = queued; started = inl invoked },
        invoked,
        more,
        here,
      )
    where
      clash : (e : CallError) (r : Reply F) → ◌≡◌ {A = Answer F} (err e) (ok r) → ⊥
      clash e r h = ground (arith, h)

  gathered-ok :
      (r : Answer F × WorkerInner F W T) (k : WorkerInner F W T → Option (WorkerInner F W T))
      (t : WorkerInner F W T)
      → gathered codec host timeout batch r k ≡ some t
      → (reply : Reply F) × (r.0 ≡ ok reply) × (k r.1 ≡ some t)
  unfolding gathered
  gathered-ok (ok reply, u) k t e = (reply, refl, e)
  gathered-ok (err failure, u) k t e = ground (arith, e)

  -- All the calls of a statement, none of which fails.
  gather-Gathering :
      (calls : List (List (Value F))) (c : Collect F) (s t : WorkerInner F W T)
      → Gathering s c
      → gather codec host timeout batch calls s ≡ some t
      → (c' : Collect F) × Gathering t c'
        × ((c.invoked ≡ true) → c'.invoked ≡ true)
        × ((k : Text)
            → Held codec host timeout batch k c.pending s.prefetched
            → Held codec host timeout batch k c'.pending t.prefetched)
        × ((i : ℕ) (args : List (Value F))
            → get_elem? calls i ≡ some args
            → (c'.invoked ≡ true)
              × Held codec host timeout batch (request_line codec args) c'.pending t.prefetched)
  unfolding gather
  gather-Gathering [] c s t h e =
      let same : s ≡ t = ground (arith, e) in
      (c, rw (sym same) h, λ g. g, λ k g. rw (sym same) g, λ i args absent. ground (arith, absent))
  gather-Gathering (args ∷ calls) c s t h e =
      let made = call codec host timeout batch args s in
      let (reply, fine, rest) = gathered-ok made (gather codec host timeout batch calls) t e in
      let (d, going, invoked, kept, here) = call-Gathering args c reply s h fine in
      let (c', ends, stays, more, each) = gather-Gathering calls d made.1 t going rest in
      (
        c',
        ends,
        λ g. stays invoked,
        λ k g. more k (kept k g),
        λ i others there.
            at_index i others there (stays invoked) (more (request_line codec args) here) each,
      )
    where
      at_index :
          {P : List (Value F) → Type 0} {Q : Type 0} (i : ℕ) (others : List (Value F))
          → get_elem? (args ∷ calls) i ≡ some others
          → Q
          → P args
          → ((j : ℕ) (given : List (Value F)) → get_elem? calls j ≡ some given → Q × P given)
          → Q × P others
      at_index zero others there q here each =
          let same : args ≡ others = ground (arith, there) in (q, rw (sym same) here)
      at_index (suc j) others there q here each = each j others there

  replayed :
      (args : List (Value F)) (o : Option (Answer F)) (a : Answer F) (s : WorkerInner F W T)
      → o ≡ some a
      → in_hand codec host timeout batch args o s ≡ (a, s)
  unfolding in_hand
  replayed args none a s e = ground (arith, e)
  replayed args (some b) a s e = let same : b ≡ a = ground (arith, e) in ap (λ x. (x, s)) same

  begun-Gathering :
      (o : Option ℕ) (n : ℕ) (s : WorkerInner F W T)
      → o ≡ some n
      → Gathering (begun codec host timeout batch o s) (new_collect codec host timeout batch)
  unfolding begun lookup
  begun-Gathering none n s e = ground (arith, e)
  begun-Gathering (some m) n s e = record {
    opened = refl;
    replies = λ key a there. none_there key a there;
    covered = λ k q. ground (arith, q);
    started = inr refl;
  }
    where
      none_there : (key : Text) (a : Answer F) → lookup key [] ≡ some a → a ≡ answer key
      none_there key a there = ground (arith, there)

  ended-ok :
      (r : Result CallError Done × WorkerInner F W T) (invoked : Bool) (u : WorkerInner F W T)
      → ended codec host timeout batch r ≡ (ok invoked, u)
      → (r.0 ≡ ok done)
        × (invoked ≡ is_invoked codec host timeout batch r.1.collect)
        × (u.prefetched ≡ r.1.prefetched)
  unfolding ended
  ended-ok (ok done, s) invoked u e = (
    refl,
    same_flag (is_invoked codec host timeout batch s.collect) invoked
        (ap (λ (x : Result CallError Bool × WorkerInner F W T). x.0) e),
    sym (ap (λ (x : Result CallError Bool × WorkerInner F W T). x.1.prefetched) e),
  )
    where
      same_flag : (a b : Bool) → ◌≡◌ {A = Result CallError Bool} (ok a) (ok b) → b ≡ a
      same_flag a b e = ground (arith, e)
  ended-ok (err failure, s) invoked u e =
      absurd (failed (ap (λ (x : Result CallError Bool × WorkerInner F W T). x.0) e))
    where
      failed : ◌≡◌ {A = Result CallError Bool} (err failure) (ok invoked) → ⊥
      failed e = ground (arith, e)

  -- After a collect pass in which no call of a statement fails, and which ends well, the function is
  -- known to be called if it was, and each of the calls is answered in the real run with the process's
  -- answer to it, while the process and everything else stay as they are. The worker has a batch size,
  -- and its process answers a request always alike.
  pub end_collect-call :
      (calls : List (List (Value F))) (n : ℕ) (s t u : WorkerInner F W T) (invoked : Bool) (i : ℕ)
      (args : List (Value F))
      → batch ≡ some n
      → gather codec host timeout batch calls (begin_collect codec host timeout batch s) ≡ some t
      → end_collect codec host timeout batch t ≡ (ok invoked, u)
      → get_elem? calls i ≡ some args
      → (invoked ≡ true)
        × (call codec host timeout batch args u ≡ (answer (request_line codec args), u))
  unfolding begin_collect end_collect call
  end_collect-call calls n s t u invoked i args batched gathers ends there =
      let opened = begun-Gathering batch n s batched in
      let (c, at_end, stays, kept, each) =
        gather-Gathering calls (new_collect codec host timeout batch)
          (begun codec host timeout batch batch s) t opened gathers in
      let (was_invoked, held) = each i args there in
      let r = flush codec host timeout batch t in
      let (fine, flag, same) = ended-ok r invoked u ends in
      let (closed, in_reach) =
        flush-Flushed codec host timeout batch answer steady c t at_end.opened fine in
      let (a, found) = in_reach (request_line codec args) held in
      let replies =
        flush-InHand codec host timeout batch (λ key a. a ≡ answer key) answer steady (λ x. refl) t
          at_end.replies in
      let is_answer = replies (request_line codec args) a found in
      (
        flag ∙ ap (is_invoked codec host timeout batch) closed ∙ was_invoked,
        replayed args (lookup (request_line codec args) u.prefetched)
            (answer (request_line codec args)) u
            (ap (lookup (request_line codec args)) same ∙ found ∙ ap some is_answer),
      )
