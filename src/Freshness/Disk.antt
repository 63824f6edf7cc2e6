-- ===== src/Freshness/Disk.antt =====
-- A file as the disk holds it over time. What is assumed of the operating system stands in `Write`:
-- a write at time `t` leaves a change time at most two seconds before `t`.
use dirsql.Prelude.{some, ◌≡◌, Text}
use dirsql.Prelude.Int.{ℤ, ◌-ℤ◌, ◌≤ℤ◌}
use dirsql.Freshness.{Fingerprint, Known, built, after_read, settle_ns, i64_min}

pub record Disk : Type 0 where
  pub fp : Fingerprint
  pub content : Text

-- A write at time `t`, whose change time is a 64-bit number.
pub data Write (t : ℤ) : Disk → Disk → Type 0 where
  write :
      {before after : Disk} (ctime : ℤ)
      → after.fp.ctime_ns ≡ some ctime
      → i64_min ≤ℤ ctime
      → t -ℤ settle_ns ≤ℤ ctime
      → Write t before after

-- What happens to the file from time `start` on: writes, in order.
pub data Since (start : ℤ) (first : Disk) : Disk → Type 0 where
  nothing : Since start first first
  then_write :
      {now next : Disk} (t : ℤ)
      → Since start first now
      → start ≤ℤ t
      → Write t now next
      → Since start first next

-- What an index entry says of a file: `first` is the file as the index holds it, `now` as it is.
-- A build begun at `built_ns` read `first`, or a read begun at `start` did and took a stat after it.
pub data Recorded (built_ns : ℤ) (first now : Disk) (known : Known) : Type 0 where
  by_build : known ≡ built → Since built_ns first now → Recorded built_ns first now known
  by_read :
      (start : ℤ) (stat : Disk)
      → known ≡ after_read (some stat.fp) start
      → Since start first stat
      → Since start stat now
      → Recorded built_ns first now known
