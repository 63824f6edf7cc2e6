-- ===== src/Listing.antt =====
-- packages/rust/src/listing.rs: the entries of a directory, read in chunks and sorted by name. A name
-- is its bytes, as on Unix; what the operating system lists is a parameter, the names in its order.
pub mod Order
pub mod Chunks
use dirsql.Prelude.{
  ℕ, zero, suc, ◌+◌, ◌*◌, ◌-◌, ◌%◌, ◌^◌, Bool, true, false, ◌||◌, Option, none, some, List, [], ◌∷◌,
  ◌++◌, Text, codes, text_eq, take, drop, length, leb, ltb, ◌==◌, if◌then◌else◌,
}
use dirsql.PathGlob.{Seen}

pub data Ordering : Type 0 where
  less : Ordering
  equal : Ordering
  greater : Ordering

pub record Listed : Type 0 where
  pub prefix : ℕ
  pub chunk : ℕ
  pub start : ℕ
  pub stop : ℕ
  pub seen : Seen

abbrev pub chunk_entries : ℕ
chunk_entries = 8192

pub record Chunk : Type 0 where
  pub index : ℕ
  pub names : Text
  pub entries : List Listed

-- `Chunk::new`
abbrev pub empty_chunk : ℕ → Chunk
empty_chunk index = record { index = index; names = []; entries = [] }

abbrev pub is_full : Chunk → Bool
is_full chunk = length chunk.entries == chunk_entries

-- `Packed::get`
abbrev pub get_name : Text → ℕ → ℕ → Text
get_name names start stop = take (stop - start) (drop start names)

-- `Chunk::name`
abbrev pub name_of : Chunk → Listed → Text
name_of chunk listed = get_name chunk.names listed.start listed.stop

-- `offset`, which panics on `none`.
abbrev pub offset : ℕ → Option ℕ
offset n = if leb n (2 ^ 32 - 1) then some n else none

-- The first `n` bytes of a name as a big-endian word, with zeros behind a shorter name.
unfoldable pub word : ℕ → Text → ℕ
word zero name = 0
word (suc n) [] = 0
word (suc n) (b ∷ name) = b * 256 ^ n + word n name

unfoldable pub name_prefix : Text → ℕ
unfolding word
name_prefix name = word 8 name

pub cmp_ℕ : ℕ → ℕ → Ordering
cmp_ℕ a b = if ltb a b then less else if ltb b a then greater else equal

pub then_with : Ordering → Ordering → Ordering
then_with less other = less
then_with equal other = other
then_with greater other = greater

-- `cmp` of names, as bytes
pub cmp_names : Text → Text → Ordering
unfolding cmp_ℕ then_with
cmp_names [] [] = equal
cmp_names [] (b ∷ t) = less
cmp_names (a ∷ s) [] = greater
cmp_names (a ∷ s) (b ∷ t) = then_with (cmp_ℕ a b) (cmp_names s t)

pub by_name : (Listed → Text) → Listed → Listed → Ordering
unfolding cmp_ℕ then_with cmp_names
by_name name a b = then_with (cmp_ℕ a.prefix b.prefix) (cmp_names (name a) (name b))

pushed : Chunk → Text → Seen → Option ℕ → Option ℕ → Option Chunk
unfolding name_prefix
pushed chunk name seen (some start) (some span) = some (record {
  index = chunk.index;
  names = chunk.names ++ name;
  entries =
      chunk.entries
      ++ record {
        prefix = name_prefix name;
        chunk = chunk.index;
        start = start;
        stop = (start + span) % 2 ^ 32;
        seen = seen;
      }
        ∷ [];
})
pushed chunk name seen _ _ = none

-- `Chunk::push`
pub push_entry : Chunk → Text → Seen → Option Chunk
unfolding pushed
push_entry chunk name seen =
    pushed chunk name seen (offset (length chunk.names)) (offset (length name))

pub record Chunker : Type 0 where
  pub chunk : Chunk
  pub emitted : List Chunk

into : List Chunk → Option Chunk → Option Chunker
into emitted none = none
into emitted (some chunk) = some (record { chunk = chunk; emitted = emitted })

-- `Chunker::push`
pub chunker_push : Chunker → Text → Seen → Option Chunker
unfolding into push_entry
chunker_push c name seen =
    if is_full c.chunk
    then into (c.emitted ++ c.chunk ∷ [])
        (push_entry (empty_chunk ((c.chunk.index + 1) % 2 ^ 32)) name seen)
    else into c.emitted (push_entry c.chunk name seen)

-- `Chunker::finish`
pub finish_chunks : Chunker → List Chunk
finish_chunks c = if length c.chunk.entries == 0 then c.emitted else c.emitted ++ c.chunk ∷ []

or_panic : Option Chunker → (Chunker → Option (List Chunk)) → Option (List Chunk)
or_panic none go = none
or_panic (some c) go = go c

-- `.` and `..`
abbrev pub is_dots : Text → Bool
is_dots name = text_eq name (codes ".") || text_eq name (codes "..")

-- The loop of `read_into`, then `finish`.
pub read_from : List (Text × Seen) → Chunker → Option (List Chunk)
unfolding or_panic chunker_push finish_chunks
read_from [] c = some (finish_chunks c)
read_from ((name, seen) ∷ listed) c =
    let rest = read_from listed c in
    if is_dots name then rest else or_panic (chunker_push c name seen) (read_from listed)

-- `read_chunks`
pub read_chunks : List (Text × Seen) → Option (List Chunk)
unfolding read_from
read_chunks listed = read_from listed (record { chunk = empty_chunk 0; emitted = [] })
