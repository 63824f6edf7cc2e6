-- ===== src/Freshness/Settle.antt =====
-- packages/rust/src/freshness.rs: a file that need not be read has not changed.
use dirsql.Prelude.{◌≡◌, refl, ap, ◌∙◌, sym, true, false, not, Option, none, some, arith}
use dirsql.Prelude.Int.{ℤ, ◌-ℤ◌, ◌≤ℤ◌, ltb_ℤ, eq_ℤ, eq_ℤ_iff, -ℤ_parts}
use dirsql.Freshness.{
  Fingerprint, Known, fingerprint_eq, time_eq, changed_before, must_read, after_read,
  saturating_sub, settle_ns, i64_min,
}
use dirsql.Freshness.Disk.{Disk, write, Since, nothing, then_write, Recorded, by_build, by_read}

-- A write from `start` on has a change time that is not before `start`'s settling bound.
not_before :
    (start t ctime : ℤ)
    → start ≤ℤ t
    → i64_min ≤ℤ ctime
    → t -ℤ settle_ns ≤ℤ ctime
    → ltb_ℤ ctime (saturating_sub start settle_ns) ≡ false
unfolding saturating_sub
not_before start t ctime p q r = ground (arith, -ℤ_parts start settle_ns, -ℤ_parts t settle_ns)

-- A file whose change time sits before the settling bound of `start` has not been written since.
unchanged-Since :
    {start : ℤ} {first now : Disk}
    → Since start first now
    → changed_before now.fp start ≡ true
    → now ≡ first
unfolding changed_before
unchanged-Since nothing h = refl
unchanged-Since {start = start} (then_write t past p (write ctime e q r)) h =
    ground (arith, not_before start t ctime p q r)

Since-trans :
    {start : ℤ} {first stat now : Disk}
    → Since start first stat
    → Since start stat now
    → Since start first now
Since-trans p nothing = p
Since-trans p (then_write t q past w) = then_write t (Since-trans p q) past w

time_eq→eq : (a b : Option ℤ) → time_eq a b ≡ true → a ≡ b
unfolding time_eq
time_eq→eq none none h = refl
time_eq→eq (some a) (some b) h = ap some ((eq_ℤ_iff a b).0 h)
time_eq→eq a b h = cc

fingerprint_eq_refl : (a : Fingerprint) → fingerprint_eq a a ≡ true
unfolding fingerprint_eq
fingerprint_eq_refl a = ground (arith, eq_ℤ-refl a.mtime_ns, time_eq-refl a.ctime_ns)
  where
    eq_ℤ-refl : (n : ℤ) → eq_ℤ n n ≡ true
    eq_ℤ-refl n = (eq_ℤ_iff n n).1 refl

    time_eq-refl : (t : Option ℤ) → time_eq t t ≡ true
    time_eq-refl none = refl
    time_eq-refl (some n) = eq_ℤ-refl n

fingerprint_eq→eq : (a b : Fingerprint) → fingerprint_eq a b ≡ true → a ≡ b
unfolding fingerprint_eq
fingerprint_eq→eq a b h =
    ground (arith, eq_ℤ_iff a.mtime_ns b.mtime_ns, time_eq→eq a.ctime_ns b.ctime_ns)

-- A read that the index need not repeat: settled, and the stat is still the same.
read_unchanged :
    (start built_ns : ℤ) {first stat now : Disk}
    → Since start first stat
    → Since start stat now
    → must_read (some (after_read (some stat.fp) start)) (some now.fp) built_ns ≡ false
    → now ≡ first
unfolding must_read after_read
read_unchanged start built_ns {stat = stat} {now = now} p q h =
    unchanged-Since (Since-trans p q) (ground (arith, fingerprint_eq→eq stat.fp now.fp))

-- A file that a query does not read again is the file that the index holds: where `must_read`
-- says no, the file now is what the build or the last read saw.
pub must_read-Sound :
    (built_ns : ℤ) (known : Known) (first now : Disk)
    → Recorded built_ns first now known
    → must_read (some known) (some now.fp) built_ns ≡ false
    → now ≡ first
unfolding must_read
must_read-Sound built_ns known first now (by_build e p) h = unchanged-Since p (ground arith)
must_read-Sound built_ns known first now (by_read start stat e p q) h =
    read_unchanged start built_ns p q
      (ap (λ k. must_read (some k) (some now.fp) built_ns) (sym e) ∙ h)

-- Once a file was read and its stat taken more than two seconds after its last change, queries leave it alone while
-- its stat stays the same; where it was read too early, the next query reads it again.
pub must_read-after_read :
    (fp : Fingerprint) (start built_ns : ℤ)
    → must_read (some (after_read (some fp) start)) (some fp) built_ns
      ≡ not (changed_before fp start)
unfolding must_read after_read
must_read-after_read fp start built_ns = ground (arith, fingerprint_eq_refl fp)
