-- ===== src/Listing/Chunks/Read.antt =====
-- packages/rust/src/listing.rs (`read_chunks`): what the chunks of a directory hold.
use mathlib.Core.List.{flatten}
use dirsql.Prelude.{
  ℕ, suc, ◌+◌, ◌%◌, ◌^◌, ◌≤◌, ◌<◌, ◌≡◌, refl, sym, ap, ap₂, ◌∙◌, Bool, true, false, ◌&&◌, Option,
  some, List, [], ◌∷◌, ◌++◌, map, Text, length, length-append, append-nil, append_assoc, all, ltb,
  leb, ◌==◌, ==_iff, ==-refl, if◌then◌else◌, arith, Bool-cases, inl, inr,
}
use dirsql.PathGlob.{Seen}
use dirsql.Listing.{
  Chunk, chunk_entries, Chunker, into, chunker_push, finish_chunks, or_panic, is_dots, read_from,
  read_chunks,
}
use dirsql.Listing.Chunks.{laid, chunk_of, length-laid, is_short, push_entry-chunk_of}
use dirsql.Listing.Chunks.Given.{listing_of, is_right, chunk_of-listing}

-- What is listed, without `.` and `..`.
abbrev pub kept : List (Text × Seen) → List (Text × Seen)
kept [] = []
kept ((name, seen) ∷ listed) =
    let rest = kept listed in if is_dots name then rest else (name, seen) ∷ rest

abbrev numbered_chunks : ℕ → List (List (Text × Seen)) → List Chunk
numbered_chunks i [] = []
numbered_chunks i (g ∷ groups) = chunk_of i g ∷ numbered_chunks (suc i) groups

numbered-snoc :
    (i : ℕ) (groups : List (List (Text × Seen))) (g : List (Text × Seen))
    → numbered_chunks i (groups ++ g ∷ [])
      ≡ numbered_chunks i groups ++ chunk_of (i + length groups) g ∷ []
numbered-snoc i [] g = ap (λ j. chunk_of j g ∷ []) (omega arith)
numbered-snoc i (h ∷ groups) g =
    ap (λ r. chunk_of i h ∷ r)
      (numbered-snoc (suc i) groups g
        ∙ ap (λ j. numbered_chunks (suc i) groups ++ chunk_of j g ∷ []) (omega arith))

numbered-next :
    (groups : List (List (Text × Seen))) (g : List (Text × Seen))
    → numbered_chunks 0 (groups ++ g ∷ [])
      ≡ numbered_chunks 0 groups ++ chunk_of (length groups) g ∷ []
numbered-next groups g =
    numbered-snoc 0 groups g ∙ ap (λ j. numbered_chunks 0 groups ++ chunk_of j g ∷ []) (omega arith)

flatten-snoc :
    {A : Type 0} (groups : List (List A)) (g : List A)
    → flatten (groups ++ g ∷ []) ≡ flatten groups ++ g
unfolding flatten
flatten-snoc [] g = append-nil g
flatten-snoc (h ∷ groups) g =
    ap (λ r. h ++ r) (flatten-snoc groups g) ∙ sym (append_assoc h (flatten groups) g)

-- A group is not empty and fits a chunk.
abbrev is_group : List (Text × Seen) → Bool
is_group g = ltb 0 (length g) && leb (length g) chunk_entries

-- The chunker has read the groups, and holds `xs` in the chunk that it fills.
abbrev chunker_of : List (List (Text × Seen)) → List (Text × Seen) → Chunker
chunker_of groups xs = record {
  chunk = chunk_of (length groups) xs;
  emitted = numbered_chunks 0 groups;
}

all-snoc :
    {A : Type 0} (p : A → Bool) (xs : List A) (x : A)
    → all p xs ≡ true
    → p x ≡ true
    → all p (xs ++ x ∷ []) ≡ true
all-snoc p [] x h g = ground (arith, g)
all-snoc p (y ∷ xs) x h g = ground (arith, h, all-snoc p xs x, g)

-- What is to come of a chunker's groups.
abbrev Comes : List (List (Text × Seen)) → List (Text × Seen) → Option (List Chunk) → Type 0
Comes groups xs result =
    (more : List (List (Text × Seen))) × (result ≡ some (numbered_chunks 0 more))
    × (flatten more ≡ flatten groups ++ xs)
    × (all is_group more ≡ true)

suc_not_zero : (n : ℕ) → (suc n == 0) ≡ false
suc_not_zero n = ground arith

finish-Comes :
    (groups : List (List (Text × Seen))) (xs : List (Text × Seen))
    → all is_group groups ≡ true
    → length xs ≤ chunk_entries
    → Comes groups xs (some (finish_chunks (chunker_of groups xs)))
unfolding finish_chunks
finish-Comes groups [] h g = (groups, refl, sym (append-nil (flatten groups)), h)
finish-Comes groups (x ∷ xs) h g = (
  groups ++ (x ∷ xs) ∷ [],
  rw (suc_not_zero (length (laid (length groups) (0 + length x.0) xs)))
      (ap some (sym (numbered-next groups (x ∷ xs)))),
  flatten-snoc groups (x ∷ xs),
  all-snoc is_group groups (x ∷ xs) h (ground (arith, g)),
)

-- What a push does: the chunk takes the entry, or is emitted and a new one takes it.
push-room :
    (groups : List (List (Text × Seen))) (xs : List (Text × Seen)) (name : Text) (seen : Seen)
    → all is_short xs ≡ true
    → is_short (name, seen) ≡ true
    → length xs < chunk_entries
    → chunker_push (chunker_of groups xs) name seen
      ≡ some (chunker_of groups (xs ++ (name, seen) ∷ []))
unfolding chunker_push into
push-room groups xs name seen short h room =
    let open_chunk : (length (laid (length groups) 0 xs) == chunk_entries) ≡ false =
      ground (arith, length-laid (length groups) 0 xs, room) in
    rw (open_chunk, push_entry-chunk_of (length groups) xs name seen short h room) refl

push-full :
    (groups : List (List (Text × Seen))) (xs : List (Text × Seen)) (name : Text) (seen : Seen)
    → is_short (name, seen) ≡ true
    → length xs ≡ chunk_entries
    → length groups + 1 < 2 ^ 32
    → chunker_push (chunker_of groups xs) name seen
      ≡ some (chunker_of (groups ++ xs ∷ []) ((name, seen) ∷ []))
unfolding chunker_push into
push-full groups xs name seen h full small =
    let shut : (length (laid (length groups) 0 xs) == chunk_entries) ≡ true =
      ground (arith, length-laid (length groups) 0 xs, full) in
    let next : (length groups + 1) % 2 ^ 32 ≡ length (groups ++ xs ∷ []) =
      omega (arith, small, length-append groups (xs ∷ [])) in
    rw
      (
        shut,
        next,
        push_entry-chunk_of (length (groups ++ xs ∷ [])) [] name seen refl h (omega arith),
      )
      (ap
        (λ e. some (record {
          chunk = chunk_of (length (groups ++ xs ∷ [])) ((name, seen) ∷ []);
          emitted = e;
        }))
        (sym (numbered-next groups xs)))

with_rest :
    (groups : List (List (Text × Seen))) (xs ys zs : List (Text × Seen)) (r : Option (List Chunk))
    → ys ≡ zs
    → Comes groups ys r
    → Comes groups zs r
with_rest groups xs ys zs r e (more, read, all_there, sizes) =
    (more, read, all_there ∙ ap (λ l. flatten groups ++ l) e, sizes)

read-Comes :
    (listed : List (Text × Seen)) (groups : List (List (Text × Seen))) (xs : List (Text × Seen))
    → all is_group groups ≡ true
    → length xs ≤ chunk_entries
    → all is_short xs ≡ true
    → all is_short listed ≡ true
    → length groups + length listed + 1 < 2 ^ 32
    → Comes groups (xs ++ kept listed) (read_from listed (chunker_of groups xs))
unfolding read_from or_panic
read-Comes [] groups xs sizes fits short shorts small =
    with_rest groups xs xs (xs ++ []) _ (sym (append-nil xs)) (finish-Comes groups xs sizes fits)
read-Comes ((name, seen) ∷ listed) groups xs sizes fits short shorts small =
    elim (Bool-cases (is_dots name)) [
      | inl dots ↦
          rw dots
            (read-Comes listed groups xs sizes fits short (ground (arith, shorts)) (omega arith))
      | inr real ↦ elim (Bool-cases (length xs == chunk_entries)) [
        | inl full ↦
            let one : is_short (name, seen) ≡ true = ground (arith, shorts) in
            let size : length xs ≡ chunk_entries = (==_iff (length xs) chunk_entries).0 full in
            let (more, read, there, ok) =
              read-Comes listed (groups ++ xs ∷ []) ((name, seen) ∷ [])
                (all-snoc is_group groups xs sizes (ground (arith, size))) (omega arith)
                (ground (arith, one)) (ground (arith, shorts))
                (omega (arith, small, length-append groups (xs ∷ []))) in
            rw (real, push-full groups xs name seen one size (omega (arith, small)))
              (
                more,
                read,
                there
                    ∙ ap (λ l. l ++ (name, seen) ∷ kept listed) (flatten-snoc groups xs)
                    ∙ append_assoc (flatten groups) xs ((name, seen) ∷ kept listed),
                ok,
              )
        | inr room ↦
            let one : is_short (name, seen) ≡ true = ground (arith, shorts) in
            let less : length xs < chunk_entries = ground (arith, fits, room) in
            rw (real, push-room groups xs name seen short one less)
              (with_rest groups xs ((xs ++ (name, seen) ∷ []) ++ kept listed)
                (xs ++ (name, seen) ∷ kept listed) _
                (append_assoc xs ((name, seen) ∷ []) (kept listed))
                (read-Comes listed groups (xs ++ (name, seen) ∷ []) sizes
                  (omega (arith, less, length-append xs ((name, seen) ∷ [])))
                  (all-snoc is_short xs (name, seen) short one) (ground (arith, shorts))
                  (omega (arith, small))))
      ]
    ]

-- The chunks stand at their indexes, from `i` on.
abbrev pub are_indexed : ℕ → List Chunk → Bool
are_indexed i [] = true
are_indexed i (chunk ∷ chunks) = (chunk.index == i) && are_indexed (suc i) chunks

-- A chunk has an entry, and at most as many as it may.
abbrev pub is_sized : Chunk → Bool
is_sized chunk = ltb 0 (length chunk.entries) && leb (length chunk.entries) chunk_entries

numbered-right :
    (i : ℕ) (groups : List (List (Text × Seen)))
    → all is_group groups ≡ true
    → (flatten (map listing_of (numbered_chunks i groups)) ≡ flatten groups)
      × (are_indexed i (numbered_chunks i groups) ≡ true)
      × (all is_sized (numbered_chunks i groups) ≡ true)
      × (all is_right (numbered_chunks i groups) ≡ true)
unfolding flatten
numbered-right i [] h = (refl, refl, refl, refl)
numbered-right i (g ∷ groups) h =
    let (same, right) = chunk_of-listing i g in
    let (sames, indexes, sizes, rights) = numbered-right (suc i) groups (ground (arith, h)) in
    (
      ap₂ (λ a b. a ++ b) same sames,
      rw (==-refl i) indexes,
      rw (length-laid i 0 g, sizes) (ground (arith, h)),
      rw (right) rights,
    )

-- Where every name is shorter than 2 ^ 19 bytes and fewer than 2 ^ 32 - 1 entries are listed: reading
-- them does not panic. The chunks hold, in order, exactly what is listed except `.` and `..`, each
-- entry by the name that its chunk gives back; every entry has the prefix of its name and the index of
-- its chunk; the chunks stand at their indexes, and each has between 1 and 8192 entries.
pub read_chunks-listing :
    (listed : List (Text × Seen))
    → all is_short listed ≡ true
    → length listed + 1 < 2 ^ 32
    → (chunks : List Chunk) × (read_chunks listed ≡ some chunks)
      × (flatten (map listing_of chunks) ≡ kept listed)
      × (are_indexed 0 chunks ≡ true)
      × (all is_sized chunks ≡ true)
      × (all is_right chunks ≡ true)
unfolding read_chunks flatten
read_chunks-listing listed short small =
    let (groups, read, there, sizes) =
      read-Comes listed [] [] refl (omega arith) refl short (omega (arith, small)) in
    let (same, indexes, sized, right) = numbered-right 0 groups sizes in
    (numbered_chunks 0 groups, read, same ∙ there, indexes, sized, right)
