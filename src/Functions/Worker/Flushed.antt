-- ===== src/Functions/Worker/Flushed.antt =====
-- packages/rust/src/functions.rs (`Worker::flush`): a flush leaves a reply in hand for every queued call.
use dirsql.Prelude.{
  ℕ, ◌≡◌, refl, sym, ap, ◌∙◌, ◌⊎◌, inl, inr, true, Option, none, some, List, [], ◌∷◌, map, Text,
  text_eq, text_eq_iff, length, if◌then◌else◌, arith, Bool-cases,
}
use dirsql.Value.{Value}
use dirsql.Functions.Wire.{Result, ok, err, Codec, request_line, batched_request_line}
use dirsql.Functions.Worker.{
  CallError, done, Host, Collect, Answer, WorkerInner, lookup, put, contains, times, exchange,
  filed, file, file_all, results_of, flush_pending, flush_from, flush,
}
use dirsql.Functions.Worker.Exchange.{Steady, exchange-Ended, exchange-all}
use dirsql.Functions.Worker.Prefetched.{lookup-put}

-- There is a reply in hand for a request line.
abbrev pub IsIn : {A : Type 0} → Text → List (Text × A) → Type 0
IsIn {A} key entries = (a : A) × (lookup key entries ≡ some a)

pub put-IsIn :
    {A : Type 0} (k j : Text) (a : A) (entries : List (Text × A))
    → IsIn k entries
    → IsIn k (put j a entries)
put-IsIn k j a entries (b, e) = elim (Bool-cases (text_eq j k)) [
  | inl same ↦ (a, lookup-put k j a entries ∙ ap (λ c. if c then some a else lookup k entries) same)
  | inr apart ↦
      (b, lookup-put k j a entries ∙ ap (λ c. if c then some a else lookup k entries) apart ∙ e)
]

pub put-here :
    {A : Type 0} (k j : Text) (a : A) (entries : List (Text × A)) → k ≡ j → IsIn k (put j a entries)
put-here k j a entries e = (
  a,
  lookup-put k j a entries
      ∙ ap (λ c. if c then some a else lookup k entries) ((text_eq_iff j k).1 (sym e)),
)

module _ {F W T : Type 0} (codec : Codec F) (host : Host W T) (timeout : ℕ) (batch : Option ℕ) where
  abbrev pub lines : List (List (Value F)) → List Text
  lines calls = map (λ args. request_line codec args) calls

  -- A reply to the request line is in hand, or its call is queued.
  abbrev pub Held : Text → List (List (Value F)) → List (Text × Answer F) → Type 0
  Held key pending entries = IsIn key entries ⊎ (contains key (lines pending) ≡ true)

  Held-as :
      (key : Text) (p q : List (List (Value F))) (entries : List (Text × Answer F))
      → p ≡ q
      → Held key p entries
      → Held key q entries
  Held-as key p q entries e (inl there) = inl there
  Held-as key p q entries e (inr queued) = inr (ap (λ x. contains key (lines x)) (sym e) ∙ queued)

  file-IsIn :
      (f : List (Value F) → Answer F) (pending : List (List (Value F))) (s : WorkerInner F W T)
      (key : Text)
      → Held key pending s.prefetched
      → IsIn key (file codec host timeout batch pending (map f pending) s).prefetched
  unfolding file filed
  file-IsIn f [] s key (inl there) = there
  file-IsIn f [] s key (inr queued) = ground (arith, queued)
  file-IsIn f (args ∷ pending) s key (inl there) =
      file-IsIn f pending (filed codec host timeout batch args (f args) s) key
        (inl (put-IsIn key (request_line codec args) (f args) s.prefetched there))
  file-IsIn f (args ∷ pending) s key (inr queued) =
      let t = filed codec host timeout batch args (f args) s in
      elim (Bool-cases (text_eq key (request_line codec args))) [
        | inl same ↦ file-IsIn f pending t key (
            inl (
              put-here key (request_line codec args) (f args) s.prefetched
                ((text_eq_iff key (request_line codec args)).0 same)))
        | inr apart ↦ file-IsIn f pending t key (inr (ground (arith, queued, apart)))
      ]

  file-collect :
      (pending : List (List (Value F))) (answers : List (Answer F)) (s : WorkerInner F W T)
      → (file codec host timeout batch pending answers s).collect ≡ s.collect
  unfolding file filed
  file-collect [] answers s = refl
  file-collect (args ∷ pending) [] s = refl
  file-collect (args ∷ pending) (a ∷ answers) s =
      file-collect pending answers (filed codec host timeout batch args a s)

  file_all-IsIn :
      (f : List (Value F) → Answer F) (pending : List (List (Value F)))
      (r : Result CallError Text × WorkerInner F W T) (key : Text)
      → ((line : Text)
          → r.0 ≡ ok line
          → results_of codec host timeout batch line (length pending) ≡ map f pending)
      → (file_all codec host timeout batch pending r).0 ≡ ok done
      → Held key pending r.1.prefetched
      → IsIn key (file_all codec host timeout batch pending r).1.prefetched
  unfolding file_all
  file_all-IsIn f pending (err e, s) key given fine h = ground (arith, fine)
  file_all-IsIn f pending (ok line, s) key given fine h =
      rw (given line refl) (file-IsIn f pending s key h)

  file_all-collect :
      (pending : List (List (Value F))) (r : Result CallError Text × WorkerInner F W T)
      → (file_all codec host timeout batch pending r).1.collect ≡ r.1.collect
  unfolding file_all
  file_all-collect pending (err e, s) = refl
  file_all-collect pending (ok line, s) =
      file-collect pending (results_of codec host timeout batch line (length pending)) s

  -- What a flush that succeeds leaves of an open collect pass.
  abbrev pub Flushed : Collect F → WorkerInner F W T → WorkerInner F W T → Type 0
  Flushed c s s' =
      (s'.collect ≡ some (record c { pending = [] }))
      × ((key : Text) → Held key c.pending s.prefetched → IsIn key s'.prefetched)

  module _ (answer : Text → Answer F) (steady : Steady codec host timeout batch answer) where
    flush_pending-Flushed :
        (c : Collect F) (pending : List (List (Value F))) (s : WorkerInner F W T)
        → c.pending ≡ pending
        → s.collect ≡ some c
        → (flush_pending codec host timeout batch c pending s).0 ≡ ok done
        → Flushed c s (flush_pending codec host timeout batch c pending s).1
    unfolding flush_pending
    flush_pending-Flushed c [] s e h fine = (
      h ∙ ap (λ (p : List (List (Value F))). some (record c { pending = p })) e,
      λ key held. none_queued key (Held-as key c.pending [] s.prefetched e held),
    )
      where
        none_queued : (key : Text) → Held key [] s.prefetched → IsIn key s.prefetched
        none_queued key (inl there) = there
        none_queued key (inr queued) = ground (arith, queued)
    flush_pending-Flushed c (args ∷ rest) s e h fine =
        let calls = args ∷ rest in
        let emptied : WorkerInner F W T = record s { collect = some (record c { pending = [] }) } in
        let time = times timeout (length calls) in
        let r =
          exchange codec host timeout batch (batched_request_line codec calls) time (length calls)
            emptied in
        let (ended, (same, collect)) =
          exchange-Ended codec host timeout batch (batched_request_line codec calls) time
            (length calls) emptied in
        (
          file_all-collect calls r ∙ collect,
          λ key held.
              file_all-IsIn (λ args. answer (request_line codec args)) calls r key
                (λ line e.
                  exchange-all codec host timeout batch answer calls time (length calls) line
                    emptied steady e)
                fine (rw same (Held-as key c.pending calls s.prefetched e held)),
        )

    flush_from-Flushed :
        (c : Collect F) (o : Option (Collect F)) (s : WorkerInner F W T)
        → o ≡ some c
        → s.collect ≡ some c
        → (flush_from codec host timeout batch o s).0 ≡ ok done
        → Flushed c s (flush_from codec host timeout batch o s).1
    unfolding flush_from
    flush_from-Flushed c none s e h fine = ground (arith, e)
    flush_from-Flushed c (some d) s e h fine =
        let same : d ≡ c = ground (arith, e) in
        let fine' = rw same at fine in rw same (flush_pending-Flushed c c.pending s refl h fine')

    -- After a flush that succeeds nothing is queued, and what was is in hand.
    pub flush-Flushed :
        (c : Collect F) (s : WorkerInner F W T)
        → s.collect ≡ some c
        → (flush codec host timeout batch s).0 ≡ ok done
        → Flushed c s (flush codec host timeout batch s).1
    unfolding flush
    flush-Flushed c s h fine = flush_from-Flushed c s.collect s h h fine
