-- ===== src/Tests/Listing.antt =====
-- The entries of a directory, on small inputs.
use mathlib.Core.List.{flatten}
use dirsql.Prelude.{
  ℕ, ◌+◌, ◌*◌, ◌^◌, ◌≡◌, refl, true, some, List, [], ◌∷◌, map, Text, codes, all, arith,
}
use dirsql.PathGlob.{Seen, seen_dir, seen_file}
use dirsql.Listing.{name_prefix, Listed, Chunk, by_name, cmp_names, read_chunks}
use dirsql.Listing.Order.{by_name-names}
use dirsql.Listing.Chunks.Given.{listing_of, is_right}
use dirsql.Listing.Chunks.Read.{kept, are_indexed, is_sized, read_chunks-listing}

abbrev listed_as : ℕ → ℕ → Listed
listed_as prefix start = record {
  prefix = prefix;
  chunk = 0;
  start = start;
  stop = start + 1;
  seen = seen_file;
}

abbrev named : Listed → Text
named listed = listed.start ∷ []

by_name-names_example :
    by_name named (listed_as (97 * 256 ^ 7) 97) (listed_as (98 * 256 ^ 7) 98)
    ≡ cmp_names (97 ∷ []) (98 ∷ [])
unfolding name_prefix
by_name-names_example =
    by_name-names named (listed_as (97 * 256 ^ 7) 97) (listed_as (98 * 256 ^ 7) 98) refl refl refl
      refl

abbrev in_order : List (Text × Seen)
in_order = (codes ".", seen_dir) ∷ (codes "b.md", seen_file) ∷ (codes "a", seen_dir) ∷ []

read_chunks-listing_example :
    (chunks : List Chunk) × (read_chunks in_order ≡ some chunks)
    × (flatten (map listing_of chunks) ≡ kept in_order)
    × (are_indexed 0 chunks ≡ true)
    × (all is_sized chunks ≡ true)
    × (all is_right chunks ≡ true)
read_chunks-listing_example = read_chunks-listing in_order refl (omega arith)
