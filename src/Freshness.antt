-- ===== src/Freshness.antt =====
-- packages/rust/src/freshness.rs: which files a query must read again. Times are nanoseconds as
-- 64-bit signed integers, `dev`, `ino` and `size` 64-bit unsigned ones. Taking the stat of a file
-- is the operating system's; `unix_ns` is the arithmetic on what it reports.
pub mod Disk
pub mod Settle
use dirsql.Prelude.{
  ℕ, ◌-◌, ◌^◌, Bool, true, false, not, ◌&&◌, ◌||◌, Option, none, some, ◌==◌, if◌then◌else◌,
}
use dirsql.Prelude.Int.{ℤ, pos, negsuc, ◌+ℤ◌, ◌-ℤ◌, ◌*ℤ◌, ltb_ℤ, eq_ℤ}

abbrev pub i64_min : ℤ
i64_min = negsuc (2 ^ 63 - 1)

abbrev pub i64_max : ℤ
i64_max = pos (2 ^ 63 - 1)

-- A value out of range becomes the nearest one in range.
unfoldable pub saturate : ℤ → ℤ
saturate n = if ltb_ℤ n i64_min then i64_min else if ltb_ℤ i64_max n then i64_max else n

unfoldable pub saturating_sub : ℤ → ℤ → ℤ
unfolding saturate
saturating_sub a b = saturate (a -ℤ b)

abbrev pub settle_ns : ℤ
settle_ns = pos 2_000_000_000

pub record Fingerprint : Type 0 where
  pub dev : ℕ
  pub ino : ℕ
  pub size : ℕ
  pub mtime_ns : ℤ
  pub ctime_ns : Option ℤ

pub data Known : Type 0 where
  built : Known
  read : Option Fingerprint → Bool → Known

time_eq : Option ℤ → Option ℤ → Bool
time_eq none none = true
time_eq (some a) (some b) = eq_ℤ a b
time_eq _ _ = false

-- `derive(PartialEq)`
pub fingerprint_eq : Fingerprint → Fingerprint → Bool
unfolding time_eq
fingerprint_eq a b =
    (a.dev == b.dev)
    && (a.ino == b.ino)
    && (a.size == b.size)
    && eq_ℤ a.mtime_ns b.mtime_ns
    && time_eq a.ctime_ns b.ctime_ns

-- `fp.as_ref() == Some(now)`
pub is_same : Option Fingerprint → Fingerprint → Bool
unfolding fingerprint_eq
is_same none now = false
is_same (some fp) now = fingerprint_eq fp now

-- `ctime < bound`, false where the platform reports no change time.
is_before : Option ℤ → ℤ → Bool
is_before none bound = false
is_before (some ctime) bound = ltb_ℤ ctime bound

unfoldable pub changed_before : Fingerprint → ℤ → Bool
unfolding is_before
changed_before fp start_ns = is_before fp.ctime_ns (saturating_sub start_ns settle_ns)

unfoldable pub must_read : Option Known → Option Fingerprint → ℤ → Bool
unfolding is_same
must_read none now built_ns = true
must_read (some known) none built_ns = true
must_read (some built) (some now) built_ns = not (changed_before now built_ns)
must_read (some (read fp settled)) (some now) built_ns = not settled || not (is_same fp now)

is_settled : Option Fingerprint → ℤ → Bool
is_settled none start_ns = false
is_settled (some fp) start_ns = changed_before fp start_ns

unfoldable pub after_read : Option Fingerprint → ℤ → Known
unfolding is_settled
after_read fp start_ns = read fp (is_settled fp start_ns)

unfoldable pub adopted : Option Known → Option Fingerprint → ℤ → Option Known
adopted none now built_ns = none
adopted (some built) now built_ns = some (after_read now built_ns)
adopted (some (read fp settled)) now built_ns = none

unfoldable pub unix_ns : ℤ → ℤ → ℤ
unfolding saturate
unix_ns secs nanos = saturate (saturate (secs *ℤ pos 1_000_000_000) +ℤ nanos)
