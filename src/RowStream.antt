-- ===== src/RowStream.antt =====
-- packages/rust/src/row_stream.rs: the chunks of a finished scan, addressed by row position.
-- Waiting on the condition variable is not modelled; `Streamed` is the state under the lock.
pub mod Position
use dirsql.Prelude.{
  ℕ, zero, suc, ◌+◌, ◌-◌, Bool, true, false, Option, none, some, List, [], ◌∷◌, ◌++◌, leb,
  get_elem?, length, if◌then◌else◌,
}

pub record Streamed (R : Type 0) : Type 0 where
  pub chunks : List (List R)
  pub done : Bool
  pub failed : Bool

pub record Settled (R : Type 0) : Type 0 where
  pub chunks : List (List R)
  pub starts : List ℕ

module _ {R : Type 0} where
  -- `RowStream::default`
  abbrev pub empty : Streamed R
  empty = record { chunks = []; done = false; failed = false }

  -- `RowStream::push`: an empty chunk is dropped.
  pub push : List R → Streamed R → Streamed R
  push [] s = s
  push (r ∷ rs) s = record s { chunks = s.chunks ++ (r ∷ rs) ∷ [] }

  -- `RowStream::finish`
  pub finish : Bool → Streamed R → Streamed R
  finish failed s = record s { done = true; failed = failed }

  -- The `scan` of `Settled::new`: the position of each chunk's first row, from `next` on.
  pub starts_from : ℕ → List (List R) → List ℕ
  starts_from next [] = []
  starts_from next (chunk ∷ chunks) = next ∷ starts_from (next + length chunk) chunks

  -- `Settled::new`
  unfoldable pub new : List (List R) → Settled R
  new chunks = record { chunks = chunks; starts = starts_from 0 chunks }

  -- `RowStream::len`
  pub stream_len : List (List R) → ℕ
  stream_len [] = 0
  stream_len (chunk ∷ chunks) = length chunk + stream_len chunks

-- `slice::partition_point(|&start| start <= position)` of a slice in order.
pub partition_point : ℕ → List ℕ → ℕ
partition_point position [] = 0
partition_point position (start ∷ starts) =
    if leb start position then suc (partition_point position starts) else 0

start_of : Option ℕ → ℕ
start_of none = 0
start_of (some start) = start

module _ {R : Type 0} where
  chunk_get : Option (List R) → ℕ → Option R
  chunk_get none i = none
  chunk_get (some chunk) i = get_elem? chunk i

  -- `Settled::get`: `checked_sub(1)` is `none` at 0; `chunks` and `starts` are read at the same `n`.
  pub get_at : ℕ → List (List R) → List ℕ → ℕ → Option R
  unfolding chunk_get start_of
  get_at zero chunks starts position = none
  get_at (suc n) chunks starts position =
      chunk_get (get_elem? chunks n) (position - start_of (get_elem? starts n))

  unfoldable pub get : Settled R → ℕ → Option R
  unfolding get_at partition_point
  get s position = get_at (partition_point position s.starts) s.chunks s.starts position
