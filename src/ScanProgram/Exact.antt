-- ===== src/ScanProgram/Exact.antt =====
-- packages/rust/src/db.rs (`scanned_columns`): exactly the programs of a plain scan are taken for one.
use dirsql.Prelude.{
  ℕ, zero, suc, ◌+◌, ◌-◌, ◌^◌, ◌≤◌, ◌<◌, Text, ◌≡◌, ◌↔◌, refl, sym, ap, ap₂, ◌∙◌, Bool, true, false,
  not, ◌&&◌, Option, none, some, List, [], ◌∷◌, ◌++◌, map, codes, text_eq, text_eq_iff,
  text_eq_refl, all, take, drop, take-append, drop-append, length, length-append, append_assoc, leb,
  ◌==◌, if◌then◌else◌, arith, Option-cases, append-nil, length-map, inl, inr,
}
use dirsql.Prelude.Int.{ℤ, pos, negsuc, eq_ℤ_iff}
use dirsql.ScanProgram.{
  Op, op, op_eq, ops_eq, scan_program, column_ops, width_of, read_columns, goto_start, ends_plainly,
  push_column, indexes, plainly, scanned_columns,
}

abbrev pub is_transaction : Op → Bool
is_transaction o = text_eq o.code (codes "Transaction")

op_eq-same : (a b : Op) → op_eq a b ≡ true → a ≡ b
op_eq-same a b h =
    ap (λ c. record { code = c; p1 = a.p1; p2 = a.p2; p3 = a.p3; p5 = a.p5 })
      ((text_eq_iff a.code b.code).0 (ground (arith, h)))
    ∙ ap (λ x. record { code = b.code; p1 = x; p2 = a.p2; p3 = a.p3; p5 = a.p5 })
        ((eq_ℤ_iff a.p1 b.p1).0 (ground (arith, h)))
    ∙ ap (λ x. record { code = b.code; p1 = b.p1; p2 = x; p3 = a.p3; p5 = a.p5 })
        ((eq_ℤ_iff a.p2 b.p2).0 (ground (arith, h)))
    ∙ ap (λ x. record { code = b.code; p1 = b.p1; p2 = b.p2; p3 = x; p5 = a.p5 })
        ((eq_ℤ_iff a.p3 b.p3).0 (ground (arith, h)))
    ∙ ap (λ x. record { code = b.code; p1 = b.p1; p2 = b.p2; p3 = b.p3; p5 = x })
        ((eq_ℤ_iff a.p5 b.p5).0 (ground (arith, h)))

ops_eq-same : (ops bs : List Op) → ops_eq ops bs ≡ true → ops ≡ bs
ops_eq-same [] [] h = refl
ops_eq-same [] (b ∷ bs) h = ground (arith, h)
ops_eq-same (a ∷ ops) [] h = ground (arith, h)
ops_eq-same (a ∷ ops) (b ∷ bs) h =
    ap₂ (λ x y. x ∷ y) (op_eq-same a b (ground (arith, h))) (ops_eq-same ops bs (ground (arith, h)))

take-drop : {A : Type 0} (n : ℕ) (xs : List A) → take n xs ++ drop n xs ≡ xs
take-drop zero xs = refl
take-drop (suc n) [] = refl
take-drop (suc n) (x ∷ xs) = ap (λ r. x ∷ r) (take-drop n xs)

ends-split :
    (ops : List Op)
    → ends_plainly ops ≡ true
    → (transactions : List Op) × (ops ≡ transactions ++ goto_start ∷ [])
      × (all is_transaction transactions ≡ true)
ends-split [] h = ground (arith, h)
ends-split (o ∷ []) h = ([], ap (λ x. x ∷ []) (op_eq-same o goto_start h), refl)
ends-split (o ∷ p ∷ ops) h =
    let (transactions, e, ok) = ends-split (p ∷ ops) (ground (arith, h)) in
    (o ∷ transactions, ap (λ r. o ∷ r) e, ground (arith, h, ok))

op_eq_refl : (a : Op) → op_eq a a ≡ true
op_eq_refl a =
    rw
      (
        text_eq_refl a.code,
        (eq_ℤ_iff a.p1 a.p1).1 refl,
        (eq_ℤ_iff a.p2 a.p2).1 refl,
        (eq_ℤ_iff a.p3 a.p3).1 refl,
        (eq_ℤ_iff a.p5 a.p5).1 refl,
      )
      refl

ops_eq_refl : (ops : List Op) → ops_eq ops ops ≡ true
ops_eq_refl [] = refl
ops_eq_refl (a ∷ ops) = rw (op_eq_refl a) (ops_eq_refl ops)

joined-ends :
    (transactions : List Op)
    → all is_transaction transactions ≡ true
    → ends_plainly (transactions ++ goto_start ∷ []) ≡ true
joined-ends [] h = op_eq_refl goto_start
joined-ends (o ∷ []) h = rw (op_eq_refl goto_start) (ground (arith, h))
joined-ends (o ∷ p ∷ ops) h = ground (arith, h, joined-ends (p ∷ ops))

read-column_ops :
    (at : ℕ) (columns : List ℤ) (rest : List Op)
    → read_columns (column_ops at columns ++ rest) ≡ columns ++ read_columns rest
unfolding read_columns
read-column_ops at [] rest = refl
read-column_ops at (column ∷ columns) rest =
    ap (λ r. column ∷ r) (read-column_ops (suc at) columns rest)

read-transactions :
    (transactions : List Op)
    → all is_transaction transactions ≡ true
    → read_columns (transactions ++ goto_start ∷ []) ≡ []
unfolding read_columns
read-transactions [] h = refl
read-transactions (o ∷ ops) h =
    let code : o.code ≡ codes "Transaction" =
      (text_eq_iff o.code (codes "Transaction")).0 (ground (arith, h)) in
    rw code (read-transactions ops (ground (arith, h)))

abbrev last_ops : List ℤ → List Op
last_ops columns =
    op (codes "ResultRow") 3 (pos (width_of columns)) 0
    ∷ op (codes "VNext") 0 (pos 5) 0
    ∷ op (codes "Halt") 0 (pos 0) 0
    ∷ []

read-scan_program :
    (columns : List ℤ) (transactions : List Op)
    → all is_transaction transactions ≡ true
    → read_columns (scan_program columns ++ (transactions ++ goto_start ∷ [])) ≡ columns
unfolding read_columns scan_program
read-scan_program columns transactions h =
    ap read_columns
      (append_assoc (column_ops 3 columns) (last_ops columns) (transactions ++ goto_start ∷ []))
    ∙ read-column_ops 3 columns (last_ops columns ++ (transactions ++ goto_start ∷ []))
    ∙ ap (λ r. columns ++ r) (read-transactions transactions h)
    ∙ append-nil columns

abbrev pub columns_at : List ℕ → List ℤ
columns_at columns = map pos columns

indexes-pos : (columns : List ℕ) → indexes (columns_at columns) ≡ some columns
unfolding indexes push_column
indexes-pos [] = refl
indexes-pos (n ∷ columns) = rw (indexes-pos columns) refl

some_same : {A : Type 0} (a b : A) → some a ≡ some b → a ≡ b
some_same a b e = ground (arith, e)

pos-indexes :
    (columns : List ℤ) (found : List ℕ) → indexes columns ≡ some found → columns ≡ columns_at found
unfolding indexes push_column
pos-indexes [] found e = ap columns_at (some_same [] found e)
pos-indexes (pos n ∷ columns) found e = elim (Option-cases (indexes columns)) [
  | inl bad ↦ absurd (none_some found (let e' = rw bad at e in e'))
  | inr (rest, good) ↦
      ap (λ r. pos n ∷ r) (pos-indexes columns rest good)
      ∙ ap columns_at (some_same (n ∷ rest) found (let e' = rw good at e in e'))
]
  where
    none_some : {A : Type 0} (a : A) → none ≡ some a → ⊥
    none_some a e = ground (arith, e)
pos-indexes (negsuc n ∷ columns) found e = ground (arith, e)

-- The program that the code expects, with transactions and the jump to the start behind it.
abbrev IsExpected : List Op → List ℕ → Type 0
IsExpected program columns =
    (transactions : List Op) × (program
      ≡ scan_program (columns_at columns) ++ (transactions ++ goto_start ∷ []))
    × (all is_transaction transactions ≡ true)
    × ((length columns == 0) ≡ false)

length-columns_at : (columns : List ℕ) → length (columns_at columns) ≡ length columns
length-columns_at columns = length-map pos columns

four :
    (a b c d : Bool) → (a && b && c && d) ≡ true → (a ≡ true) × (b ≡ true) × (c ≡ true) × (d ≡ true)
four a b c d h = (ground (arith, h), ground (arith, h), ground (arith, h), ground (arith, h))

all_four : (a b c d : Bool) → a ≡ true → b ≡ true → c ≡ true → d ≡ true → (a && b && c && d) ≡ true
all_four a b c d ha hb hc hd = rw (ha, hb, hc, hd) refl

plainly-parts :
    (columns : List ℤ) (expected program : List Op)
    → plainly columns expected program ≡ true
    → (transactions : List Op) × (program ≡ expected ++ (transactions ++ goto_start ∷ []))
      × (all is_transaction transactions ≡ true)
      × ((length columns == 0) ≡ false)
unfolding plainly
plainly-parts columns expected program h =
    let n = length expected in
    let (long, plain, filled, same) =
      four (leb n (length program)) (ends_plainly (drop n program)) (not (length columns == 0))
        (ops_eq (take n program) expected) h in
    let (transactions, ends, ok) = ends-split (drop n program) plain in
    (
      transactions,
      sym (take-drop n program)
          ∙ ap₂ (λ a b. a ++ b) (ops_eq-same (take n program) expected same) ends,
      ok,
      ground (arith, filled),
    )

plainly-made :
    (columns : List ℤ) (expected transactions : List Op)
    → all is_transaction transactions ≡ true
    → (length columns == 0) ≡ false
    → plainly columns expected (expected ++ (transactions ++ goto_start ∷ [])) ≡ true
unfolding plainly
plainly-made columns expected transactions ok filled =
    let rest = transactions ++ goto_start ∷ [] in
    all_four _ _ _ _ (ground (arith, length-append expected rest))
      (ap ends_plainly (drop-append expected rest) ∙ joined-ends transactions ok) (rw filled refl)
      (ap (λ l. ops_eq l expected) (take-append expected rest) ∙ ops_eq_refl expected)

chosen :
    (b : Bool) (o : Option (List ℕ)) (columns : List ℕ)
    → (if b then o else none) ≡ some columns
    → (b ≡ true) × (o ≡ some columns)
chosen true o columns e = (refl, e)
chosen false o columns e = ground (arith, e)

found-IsExpected :
    (program : List Op) (columns : List ℕ)
    → scanned_columns program ≡ some columns
    → IsExpected program columns
unfolding scanned_columns
found-IsExpected program columns e =
    let read = read_columns program in
    let (plain, found) =
      chosen (plainly read (scan_program read) program) (indexes read) columns e in
    let same = pos-indexes read columns found in
    let (transactions, split, ok, filled) = plainly-parts read (scan_program read) program plain in
    (
      transactions,
      split ∙ ap (λ c. scan_program c ++ (transactions ++ goto_start ∷ [])) same,
      ok,
      ap (λ n. n == 0) (sym (length-columns_at columns) ∙ ap length (sym same)) ∙ filled,
    )

read-known :
    (columns : List ℕ) (transactions : List Op)
    → all is_transaction transactions ≡ true
    → (length columns == 0) ≡ false
    → scanned_columns (scan_program (columns_at columns) ++ (transactions ++ goto_start ∷ []))
      ≡ some columns
unfolding scanned_columns
read-known columns transactions ok filled =
    let program = scan_program (columns_at columns) ++ (transactions ++ goto_start ∷ []) in
    let same = read-scan_program (columns_at columns) transactions ok in
    let plain =
      plainly-made (columns_at columns) (scan_program (columns_at columns)) transactions ok
        (ap (λ n. n == 0) (length-columns_at columns) ∙ filled) in
    ap (λ c. if plainly c (scan_program c) program then indexes c else none) same
    ∙ ap (λ b. if b then indexes (columns_at columns) else none) plain
    ∙ indexes-pos columns

-- Opcodes as SQLite lists them: the operands, in their order.
abbrev instruction : Text → ℕ → ℕ → ℕ → Op
instruction code p1 p2 p3 = record {
  code = code;
  p1 = pos p1;
  p2 = pos p2;
  p3 = pos p3;
  p5 = pos 0;
}

-- The columns of the cursor's row, read into the registers from one on.
abbrev pub reads : ℕ → List ℕ → List Op
reads register [] = []
reads register (column ∷ columns) =
    instruction (codes "VColumn") 0 column register ∷ reads (register + 1) columns

-- The program starts behind its own end; the filter, without constraints, goes to the end of the loop
-- where there is no row.
abbrev pub opening : ℕ → ℕ → List Op
opening start no_row =
    instruction (codes "Init") 0 start 0
    ∷ instruction (codes "VOpen") 0 0 0
    ∷ instruction (codes "Integer") 0 1 0
    ∷ instruction (codes "Integer") 0 2 0
    ∷ instruction (codes "VFilter") 0 no_row 1
    ∷ []

-- The row that was read is a result, and the next row goes back to the reads.
abbrev pub next_row : ℕ → ℕ → List Op
next_row count again =
    instruction (codes "ResultRow") 3 count 0 ∷ instruction (codes "VNext") 0 again 0 ∷ []

abbrev pub halt : List Op
halt = instruction (codes "Halt") 0 0 0 ∷ []

abbrev pub around : (start no_row again count : ℕ) (body behind : List Op) → List Op
around start no_row again count body behind =
    opening start no_row ++ (body ++ (next_row count again ++ (halt ++ behind)))

-- A scan: each jump goes to the address at which the part that it names stands in the program.
abbrev pub scan_of : List ℕ → List Op → List Op
scan_of columns transactions =
    let body = reads 3 columns in
    let first_read = length (opening 0 0) in
    let at_halt = first_read + length body + length (next_row 0 0) in
    let at_start = at_halt + length halt in
    around at_start at_halt first_read (length columns) body
      (transactions ++ instruction (codes "Goto") 0 1 0 ∷ [])

abbrev pub IsScan : List Op → List ℕ → Type 0
IsScan program columns =
    (transactions : List Op) × (program ≡ scan_of columns transactions)
    × (all is_transaction transactions ≡ true)
    × ((length columns == 0) ≡ false)

reads-column_ops :
    (register : ℕ) (columns : List ℕ)
    → column_ops register (columns_at columns) ≡ reads register columns
reads-column_ops register [] = refl
reads-column_ops register (column ∷ columns) =
    ap (λ ops. op (codes "VColumn") 0 (pos column) register ∷ ops)
      (reads-column_ops (suc register) columns ∙ ap (λ n. reads n columns) (omega arith))

length-reads : (register : ℕ) (columns : List ℕ) → length (reads register columns) ≡ length columns
length-reads register [] = refl
length-reads register (column ∷ columns) = ap suc (length-reads (register + 1) columns)

scan_program-of :
    (columns : List ℕ) (transactions : List Op)
    → length columns ≤ 2 ^ 63 - 1
    → scan_program (columns_at columns) ++ (transactions ++ goto_start ∷ [])
      ≡ scan_of columns transactions
unfolding scan_program
scan_program-of columns transactions h =
    let behind = transactions ++ goto_start ∷ [] in
    let n = width_of (columns_at columns) in
    let body = reads 3 columns in
    let width : n ≡ length columns = ground (arith, h, length-columns_at columns) in
    let size = length-reads 3 columns in
    ap (λ r. opening (n + 8) (n + 7) ++ r)
      (append_assoc (column_ops 3 (columns_at columns)) (last_ops (columns_at columns)) behind)
    ∙ ap (λ r. around (n + 8) (n + 7) 5 n r behind) (reads-column_ops 3 columns)
    ∙ ap (λ m. around (m + 8) (m + 7) 5 m body behind) width
    ∙ ap₂ (λ start no_row. around start no_row 5 (length columns) body behind) (omega (arith, size))
        (omega (arith, size))

-- The columns of a program of less than `2 ^ 63` instructions.
length-columns_fit :
    (columns : List ℕ) (behind : List Op)
    → length (scan_program (columns_at columns) ++ behind) ≤ 2 ^ 63 - 1
    → length columns ≤ 2 ^ 63 - 1
unfolding scan_program
length-columns_fit columns behind h =
    let ops = column_ops 3 (columns_at columns) in
    let last = last_ops (columns_at columns) in
    omega (
      arith,
      h,
      length-append (ops ++ last) behind,
      length-append ops last,
      ap length (reads-column_ops 3 columns),
      length-reads 3 columns,
    )

length-scan_of :
    (columns : List ℕ) (transactions : List Op)
    → length columns ≤ length (scan_of columns transactions)
length-scan_of columns transactions =
    let body = reads 3 columns in
    omega (
      arith,
      length-reads 3 columns,
      length-append body
          (next_row (length columns) 5 ++ (halt ++ (transactions ++ goto_start ∷ []))),
    )

-- A program of less than `2 ^ 63` instructions is taken for a plain scan of columns exactly if it
-- opens one cursor, filters it without constraints, reads these columns, at least one, into
-- registers in order, makes them a row, and goes on with the next row, each jump going to the
-- address of what it jumps to; then there are transactions, and the jump to the start.
pub scanned_columns-IsScan :
    (program : List Op) (columns : List ℕ)
    → length program < 2 ^ 63
    → (scanned_columns program ≡ some columns) ↔ IsScan program columns
scanned_columns-IsScan program columns short = (
  λ found.
      let (transactions, e, ok, filled) = found-IsExpected program columns found in
      let fit =
        length-columns_fit columns (transactions ++ goto_start ∷ [])
          (omega (arith, ap length e, short)) in
      (transactions, e ∙ scan_program-of columns transactions fit, ok, filled),
  λ (transactions, e, ok, filled).
      let fit : length columns ≤ 2 ^ 63 - 1 =
        omega (arith, length-scan_of columns transactions, ap length e, short) in
      ap scanned_columns (e ∙ sym (scan_program-of columns transactions fit))
      ∙ read-known columns transactions ok filled,
)
