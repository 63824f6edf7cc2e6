-- ===== src/Tests/Rows.antt =====
-- Row streams, row events and the freshness of files, on small inputs.
use dirsql.Prelude.{ℕ, ◌≡◌, refl, false, some, List, [], ◌∷◌, ◌++◌, Text, codes, arith, ◌==◌}
use dirsql.Prelude.Int.{ℤ, pos, ◌-ℤ◌}
use dirsql.RowStream.{Streamed}
use dirsql.Value.{Row, integer, text, row_eq}
use dirsql.Differ.{RowEvent, diff_unordered, diff}
use dirsql.Differ.Bag.{replay, SameRows, Fits}
use dirsql.Differ.Unordered.{diff_unordered-Replays}
use dirsql.Differ.Ordered.{Agrees, Becomes, diff-Replays}
use dirsql.Freshness.{Fingerprint, must_read, after_read, changed_before, saturating_sub, saturate}
use dirsql.Freshness.Disk.{Disk, nothing, Recorded, by_read}
use dirsql.Freshness.Settle.{must_read-Sound}

abbrev two_chunks : List (List ℕ)
two_chunks = (5 ∷ 6 ∷ []) ∷ (7 ∷ []) ∷ []

abbrev half_done : Streamed ℕ
half_done = record { chunks = two_chunks; done = false; failed = false }

abbrev debug : Row ℕ → Text
debug [] = []
debug ((k, integer (pos n)) ∷ row) = k ++ n ∷ debug row
debug ((k, v) ∷ row) = k ++ debug row

abbrev one_row : ℕ → Row ℕ
one_row n = (codes "n", integer (pos n)) ∷ []

abbrev wide_row : ℕ → Row ℕ
wide_row n = (codes "n", integer (pos n)) ∷ (codes "m", text (codes "x")) ∷ []

abbrev old_rows : List (Row ℕ)
old_rows = one_row 1 ∷ one_row 2 ∷ one_row 1 ∷ []

abbrev new_rows : List (Row ℕ)
new_rows = one_row 2 ∷ one_row 3 ∷ []

diff_unordered-Replays_example :
    (events : List (RowEvent ℕ)) × (left : List (Row ℕ)) × (diff_unordered debug
        (codes "t")
        old_rows
        new_rows
        (codes "f")
      ≡ some events)
    × (replay debug old_rows events ≡ some left)
    × SameRows debug left new_rows
diff_unordered-Replays_example =
    diff_unordered-Replays debug (codes "t") old_rows new_rows (codes "f")

same_rows : SameRows debug (one_row 1 ∷ one_row 2 ∷ []) (one_row 2 ∷ one_row 1 ∷ [])
same_rows k = omega arith

abbrev before : List (Row ℕ)
before = one_row 1 ∷ one_row 2 ∷ []

abbrev after : List (Row ℕ)
after = one_row 1 ∷ wide_row 2 ∷ one_row 3 ∷ []

before-Agrees : Agrees (λ a b. a == b) debug before after
unfolding row_eq
before-Agrees = (λ e. refl, (λ e. ground (arith, e), tt))

diff-Replays_example :
    Becomes
      (λ a b. a == b)
      debug
      before
      (diff (λ a b. a == b) (codes "t") (some before) (some after) (codes "f"))
      after
diff-Replays_example =
    diff-Replays (λ a b. a == b) debug (codes "t") (some before) (some after) (codes "f")
      before-Agrees

held-Fits : Fits debug (one_row 1 ∷ one_row 2 ∷ []) old_rows
held-Fits k = omega arith

abbrev fp : Fingerprint
fp = record { dev = 1; ino = 2; size = 3; mtime_ns = pos 5; ctime_ns = some (pos 1_000_000_000) }

abbrev disk : Disk
disk = record { fp = fp; content = codes "a" }

abbrev later : ℤ
later = pos 9_000_000_000

disk-Recorded : Recorded later disk disk (after_read (some fp) later)
disk-Recorded = by_read later disk refl nothing nothing

left_alone : must_read (some (after_read (some fp) later)) (some fp) later ≡ false
unfolding must_read after_read changed_before saturating_sub saturate ◌-ℤ◌
left_alone = refl

must_read-Sound_example : disk ≡ disk
must_read-Sound_example =
    must_read-Sound later (after_read (some fp) later) disk disk disk-Recorded left_alone
