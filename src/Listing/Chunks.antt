-- ===== src/Listing/Chunks.antt =====
-- packages/rust/src/listing.rs (`Chunk`, `Chunker`, `read_chunks`): the chunks hold what was listed.
pub mod Given
pub mod Read
use mathlib.Core.List.{flatten}
use dirsql.Prelude.{
  ℕ, zero, suc, ◌+◌, ◌*◌, ◌-◌, ◌%◌, ◌^◌, ◌≤◌, ◌<◌, ◌≡◌, refl, sym, ap, ap₂, ◌∙◌, Bool, true, false,
  not, ◌&&◌, Option, none, some, List, [], ◌∷◌, ◌++◌, map, Text, length, length-append, take,
  take-append, drop, drop-append, append-nil, append_assoc, all, ltb, leb, ◌==◌, ==-refl, text_eq,
  if◌then◌else◌, arith, Bool-cases, inl, inr,
}
use dirsql.PathGlob.{Seen}
use dirsql.Listing.{
  Listed, Chunk, chunk_entries, empty_chunk, is_full, get_name, name_of, offset, name_prefix,
  pushed, push_entry,
}

-- The names of the entries, end to end.
abbrev pub joined : List (Text × Seen) → Text
joined [] = []
joined ((name, seen) ∷ xs) = name ++ joined xs

abbrev pub laid : ℕ → ℕ → List (Text × Seen) → List Listed
laid i p [] = []
laid i p ((name, seen) ∷ xs) =
    record { prefix = name_prefix name; chunk = i; start = p; stop = p + length name; seen = seen }
    ∷ laid i (p + length name) xs

-- The chunk at a position that holds these entries.
abbrev pub chunk_of : ℕ → List (Text × Seen) → Chunk
chunk_of i xs = record { index = i; names = joined xs; entries = laid i 0 xs }

pub length-laid : (i p : ℕ) (xs : List (Text × Seen)) → length (laid i p xs) ≡ length xs
length-laid i p [] = refl
length-laid i p ((name, seen) ∷ xs) = ap suc (length-laid i (p + length name) xs)

joined-snoc :
    (xs : List (Text × Seen)) (name : Text) (seen : Seen)
    → joined (xs ++ (name, seen) ∷ []) ≡ joined xs ++ name
joined-snoc [] name seen = append-nil name
joined-snoc ((n, s) ∷ xs) name seen =
    ap (λ r. n ++ r) (joined-snoc xs name seen) ∙ sym (append_assoc n (joined xs) name)

abbrev pub is_short : Text × Seen → Bool
is_short (name, seen) = ltb (length name) (2 ^ 19)

joined-short :
    (xs : List (Text × Seen)) → all is_short xs ≡ true → length (joined xs) ≤ length xs * (2 ^ 19)
joined-short [] h = omega arith
joined-short ((n, s) ∷ xs) h =
    let small : length n < 2 ^ 19 = ground (arith, h) in
    omega (arith, length-append n (joined xs), small, joined-short xs (ground (arith, h)))

entry_at : ℕ → ℕ → Text → Seen → Listed
entry_at i p name seen = record {
  prefix = name_prefix name;
  chunk = i;
  start = p;
  stop = p + length name;
  seen = seen;
}

laid-snoc :
    (i p : ℕ) (xs : List (Text × Seen)) (name : Text) (seen : Seen)
    → laid i p (xs ++ (name, seen) ∷ [])
      ≡ laid i p xs ++ entry_at i (p + length (joined xs)) name seen ∷ []
unfolding entry_at
laid-snoc i p [] name seen = ap (λ q. entry_at i q name seen ∷ []) (omega arith)
laid-snoc i p ((n, s) ∷ xs) name seen =
    ap (λ r. entry_at i p n s ∷ r)
      (laid-snoc i (p + length n) xs name seen
        ∙ ap (λ q. laid i (p + length n) xs ++ entry_at i q name seen ∷ [])
            (omega (arith, length-append n (joined xs))))

pub push_entry-chunk_of :
    (i : ℕ) (xs : List (Text × Seen)) (name : Text) (seen : Seen)
    → all is_short xs ≡ true
    → is_short (name, seen) ≡ true
    → length xs < chunk_entries
    → push_entry (chunk_of i xs) name seen ≡ some (chunk_of i (xs ++ (name, seen) ∷ []))
unfolding push_entry pushed entry_at
push_entry-chunk_of i xs name seen short h room =
    let size = joined-short xs short in
    let small : length name < 2 ^ 19 = ground (arith, h) in
    let fits : leb (length (joined xs)) (2 ^ 32 - 1) ≡ true = ground (arith, size, room) in
    let spans : leb (length name) (2 ^ 32 - 1) ≡ true = ground (arith, small) in
    let whole : (length (joined xs) + length name) % 2 ^ 32 ≡ length (joined xs) + length name =
      omega (arith, size, room, small) in
    rw (fits, spans, whole)
      (ap₂ (λ names entries. some (record { index = i; names = names; entries = entries }))
        (sym (joined-snoc xs name seen))
        (ap (λ q. laid i 0 xs ++ entry_at i q name seen ∷ []) (omega arith)
          ∙ sym (laid-snoc i 0 xs name seen)))
