-- ===== src/Listing/Chunks/Given.antt =====
-- packages/rust/src/listing.rs (`read_chunks`): what a chunk gives back.
use dirsql.Prelude.{
  ℕ, ◌+◌, ◌-◌, ◌≡◌, refl, sym, ap, ap₂, ◌∙◌, Bool, true, ◌&&◌, List, [], ◌∷◌, ◌++◌, map, Text,
  length, length-append, take, take-append, drop-append, append_assoc, all, ◌==◌, ==-refl, arith,
}
use dirsql.PathGlob.{Seen}
use dirsql.Listing.{Chunk, get_name, name_of, name_prefix}
use dirsql.Listing.Chunks.{joined, laid, chunk_of}

-- The entries of a chunk by their names.
abbrev pub listing_of : Chunk → List (Text × Seen)
listing_of chunk = map (λ l. (name_of chunk l, l.seen)) chunk.entries

-- Each entry says which chunk it is in, and has the prefix of its name.
abbrev pub is_right : Chunk → Bool
is_right chunk =
    all (λ l. (l.chunk == chunk.index) && (l.prefix == name_prefix (name_of chunk l))) chunk.entries

get-joined :
    (before name rest : Text)
    → get_name (before ++ (name ++ rest)) (length before) (length before + length name) ≡ name
get-joined before name rest =
    ap (take (length before + length name - length before)) (drop-append before (name ++ rest))
    ∙ ap (λ n. take n (name ++ rest)) (omega arith)
    ∙ take-append name rest

laid-listing :
    (i : ℕ) (before : Text) (xs : List (Text × Seen)) (names : Text) (p : ℕ)
    → names ≡ before ++ joined xs
    → p ≡ length before
    → (map (λ l. (get_name names l.start l.stop, l.seen)) (laid i p xs) ≡ xs)
      × (all
            (λ l. (l.chunk == i) && (l.prefix == name_prefix (get_name names l.start l.stop)))
            (laid i p xs)
          ≡ true)
laid-listing i before [] names p e q = (refl, refl)
laid-listing i before ((name, seen) ∷ xs) names p e q =
    let here : get_name names p (p + length name) ≡ name =
      rw (e, q) (get-joined before name (joined xs)) in
    let (rest, right) =
      laid-listing i (before ++ name) xs names (p + length name)
        (e ∙ sym (append_assoc before name (joined xs)))
        (omega (arith, q, length-append before name)) in
    (
      ap₂ (λ n r. (n, seen) ∷ r) here rest,
      rw (==-refl i, here, ==-refl (name_prefix name), right) refl,
    )

pub chunk_of-listing :
    (i : ℕ) (xs : List (Text × Seen))
    → (listing_of (chunk_of i xs) ≡ xs) × (is_right (chunk_of i xs) ≡ true)
chunk_of-listing i xs = laid-listing i [] xs (joined xs) 0 refl refl
