-- ===== src/TableRefs/Order.antt =====
-- packages/rust/src/table_refs.rs: `table_refs` finds names in order, and never fails.
use dirsql.Prelude.{
  ℕ, ◌≤◌, ◌<◌, ◌≡◌, refl, ap, ◌∙◌, Bool, true, false, some, List, [], ◌∷◌, ◌++◌, Text, byte_len,
  arith, if◌then◌else◌,
}
use dirsql.TableRefs.{
  Scan, TableRef, start_scan, scan_token, scan_word, scan_close, scan_round, scan, scan_tokens,
  refs_of, table_refs,
}
use dirsql.TableRefs.Lexer.{
  Token, Spanned, quoted, word, open_paren, close_paren, comma, dot, end, other,
}
use dirsql.TableRefs.Lexer.Spans.{InOrder, tokens-InOrder}

-- References lie in order between `lo` and `hi`.
abbrev pub RefsInOrder : ℕ → ℕ → List TableRef → Type 0
RefsInOrder lo hi [] = lo ≤ hi
RefsInOrder lo hi (r ∷ rs) = (lo ≤ r.start) × (r.start < r.stop) × RefsInOrder r.stop hi rs

RefsInOrder-snoc :
    (lo mid : ℕ) (rs : List TableRef) (r : TableRef)
    → RefsInOrder lo mid rs
    → mid ≤ r.start
    → r.start < r.stop
    → RefsInOrder lo r.stop (rs ++ r ∷ [])
RefsInOrder-snoc lo mid [] r h p q = (omega arith, q, omega arith)
RefsInOrder-snoc lo mid (x ∷ rs) r h p q = (h.0, h.1, RefsInOrder-snoc x.stop mid rs r h.2 p q)

RefsInOrder-le :
    (lo mid hi : ℕ) (rs : List TableRef) → RefsInOrder lo mid rs → mid ≤ hi → RefsInOrder lo hi rs
RefsInOrder-le lo mid hi [] h p = omega arith
RefsInOrder-le lo mid hi (x ∷ rs) h p = (h.0, h.1, RefsInOrder-le x.stop mid hi rs h.2 p)

-- The loop's invariant: a depth is open, and the references so far end before `at`.
record IsGood (at : ℕ) (s : Scan) : Type 0 where
  deep : (from : Bool) × (below : List Bool) × (s.in_from ≡ from ∷ below)
  found : RefsInOrder 0 at s.refs

IsGood-same :
    (at hi : ℕ) (from : Bool) (below : List Bool) (b : Bool) (refs : List TableRef)
    → RefsInOrder 0 at refs
    → at ≤ hi
    → IsGood hi (record { in_from = from ∷ below; expect_table = b; refs = refs })
IsGood-same at hi from below b refs h p = record {
  deep = (from, below, refl);
  found = RefsInOrder-le 0 at hi refs h p;
}

if-IsGood :
    {at : ℕ} (b : Bool) {x y : Scan} → IsGood at x → IsGood at y → IsGood at (if b then x else y)
if-IsGood true h k = h
if-IsGood false h k = k

if-RefsInOrder :
    (b : Bool) (hi : ℕ) (x y : List TableRef)
    → RefsInOrder 0 hi x
    → RefsInOrder 0 hi y
    → RefsInOrder 0 hi (if b then x else y)
if-RefsInOrder true hi x y h k = h
if-RefsInOrder false hi x y h k = k

scan_close-IsGood :
    (at hi : ℕ) (from : Bool) (below : List Bool) (refs : List TableRef)
    → RefsInOrder 0 at refs
    → at ≤ hi
    → IsGood hi (scan_close from below refs)
unfolding scan_close
scan_close-IsGood at hi from [] refs h p = IsGood-same at hi from [] false refs h p
scan_close-IsGood at hi from (b ∷ below) refs h p = IsGood-same at hi b below false refs h p

scan_word-IsGood :
    (at hi : ℕ) (w : Text) (from : Bool) (below : List Bool) (refs : List TableRef)
    → RefsInOrder 0 at refs
    → at ≤ hi
    → IsGood hi (scan_word w from below refs)
unfolding scan_word
scan_word-IsGood at hi w from below refs h p = search (if-IsGood, IsGood-same at hi) depth 8

-- A round keeps the invariant, up to the end of its token.
scan_token-IsGood :
    (at : ℕ) (token : Token) (t : Spanned) (ts : List Spanned) (here from : Bool)
    (below : List Bool) (refs : List TableRef)
    → RefsInOrder 0 at refs
    → at ≤ t.start
    → t.start < t.stop
    → IsGood t.stop (scan_token token t ts here from below refs)
unfolding scan_token
scan_token-IsGood at (quoted name) t ts here from below refs h p q = record {
  deep = (from, below, refl);
  found =
      if-RefsInOrder _ t.stop _ refs
        (RefsInOrder-snoc 0 at refs (record { start = t.start; stop = t.stop; name = name }) h p q)
        (RefsInOrder-le 0 at t.stop refs h (omega arith));
}
scan_token-IsGood at (word w) t ts here from below refs h p q =
    scan_word-IsGood at t.stop w from below refs h (omega arith)
scan_token-IsGood at open_paren t ts here from below refs h p q =
    IsGood-same at t.stop false (from ∷ below) false refs h (omega arith)
scan_token-IsGood at close_paren t ts here from below refs h p q =
    scan_close-IsGood at t.stop from below refs h (omega arith)
scan_token-IsGood at comma t ts here from below refs h p q =
    IsGood-same at t.stop from below from refs h (omega arith)
scan_token-IsGood at dot t ts here from below refs h p q =
    IsGood-same at t.stop from below false refs h (omega arith)
scan_token-IsGood at end t ts here from below refs h p q =
    IsGood-same at t.stop false [] false refs h (omega arith)
scan_token-IsGood at other t ts here from below refs h p q =
    IsGood-same at t.stop from below false refs h (omega arith)

pub scan-step :
    (t : Spanned) (ts : List Spanned) (s : Scan) (from : Bool) (below : List Bool)
    → s.in_from ≡ from ∷ below
    → scan (t ∷ ts) s ≡ scan ts (scan_token t.token t ts s.expect_table from below s.refs)
unfolding scan scan_round
scan-step t ts s from below e = rw (scan, scan_round, e)

scan-RefsInOrder :
    (at hi : ℕ) (ts : List Spanned) (s : Scan)
    → IsGood at s
    → InOrder at hi ts
    → (last : Scan) × (scan ts s ≡ some last) × RefsInOrder 0 hi last.refs
unfolding scan
scan-RefsInOrder at hi [] s g o = (s, refl, RefsInOrder-le 0 at hi s.refs g.found o)
scan-RefsInOrder at hi (t ∷ ts) s g o =
    let (from, below, e) = g.deep in
    let next = scan_token t.token t ts s.expect_table from below s.refs in
    let (last, e', r) =
      scan-RefsInOrder t.stop hi ts next
        (scan_token-IsGood at t.token t ts s.expect_table from below s.refs g.found o.0 o.1) o.2 in
    (last, scan-step t ts s from below e ∙ e', r)

-- `table_refs` never fails: the outermost depth stays open, and the lexer ends. What it finds are
-- spans of the statement that are not empty, do not overlap and stand in order.
pub table_refs-InOrder :
    (sql : Text)
    → (refs : List TableRef) × (table_refs sql ≡ some refs) × RefsInOrder 0 (byte_len sql) refs
unfolding table_refs scan_tokens refs_of
table_refs-InOrder sql =
    let (ts, e, o) = tokens-InOrder sql in
    let (last, e', r) =
      scan-RefsInOrder 0 (byte_len sql) ts start_scan
        (IsGood-same 0 0 false [] false [] (omega arith) (omega arith)) o in
    (last.refs, ap scan_tokens e ∙ ap refs_of e', r)
