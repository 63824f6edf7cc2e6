-- ===== src/TableRefs/Taken.antt =====
-- packages/rust/src/table_refs.rs (`table_refs`): which quoted tokens are taken for tables.
use dirsql.Prelude.{
  ◌≡◌, refl, sym, ap, ◌∙◌, inl, inr, Bool, true, false, ◌||◌, ◌&&◌, some, List, [], ◌∷◌, any, not,
  ◌++◌, Text, codes, append-nil, append_assoc, if◌then◌else◌, arith, Bool-cases,
}
use dirsql.TableRefs.{
  TableRef, Scan, start_scan, eq_ignore_ascii_case, is_dot_next, ends_from, scan_word, scan_close,
  scan_token, scan, scan_tokens, refs_of, table_refs,
}
use dirsql.TableRefs.Order.{scan-step}
use dirsql.TableRefs.Lexer.Spans.{tokens-InOrder}
use dirsql.TableRefs.Lexer.{
  Token, Spanned, quoted, word, open_paren, close_paren, comma, dot, end, other, tokens,
}

-- `FROM` or `JOIN`
abbrev pub leads : Token → Bool
leads (word w) = eq_ignore_ascii_case w (codes "FROM") || eq_ignore_ascii_case w (codes "JOIN")
leads _ = false

-- Whether the next token stands where a table goes: behind `FROM` or `JOIN`, or behind a comma where
-- `listing` says that commas part tables.
abbrev pub expects : Bool → Token → Bool
expects listing comma = listing
expects listing token = leads token

-- Commas part tables from a `FROM` on up to a word that ends its list, a parenthesis or a semicolon.
abbrev pub surely : Bool → Token → Bool
surely listing (word w) =
    if eq_ignore_ascii_case w (codes "FROM")
    then true
    else listing
      && (eq_ignore_ascii_case w (codes "JOIN")
          || not (any (λ k. eq_ignore_ascii_case w k) ends_from))
surely listing open_paren = false
surely listing close_paren = false
surely listing end = false
surely listing token = listing

-- They may part tables where there is a `FROM` before in the statement.
abbrev pub maybe : Bool → Token → Bool
maybe listing (word w) = eq_ignore_ascii_case w (codes "FROM") || listing
maybe listing end = false
maybe listing token = listing

abbrev implies : Bool → Bool → Bool
implies p q = not p || q

abbrev some_open : List Bool → Bool
some_open below = any (λ b. b) below

abbrev take_one : Token → Spanned → List Spanned → Bool → List TableRef → List TableRef
take_one (quoted name) t ts here rest =
    if here || is_dot_next ts
    then record { start = t.start; stop = t.stop; name = name } ∷ rest
    else rest
take_one _ t ts here rest = rest

-- The quoted tokens that stand where a table goes or in front of a dot; `listing` is followed by
-- `next`, and `here` is whether the first one stands where a table goes.
pub taken : (next : Bool → Token → Bool) → Bool → Bool → List Spanned → List TableRef
taken next listing here [] = []
taken next listing here (t ∷ ts) =
    take_one t.token t ts here (taken next (next listing t.token) (expects listing t.token) ts)

-- The elements of a list are among those of the other, in their order.
pub data Within : List TableRef → List TableRef → Type 0 where
  none_left : Within [] []
  skip : {r : TableRef} {a b : List TableRef} → Within a b → Within a (r ∷ b)
  keep : {r : TableRef} {a b : List TableRef} → Within a b → Within (r ∷ a) (r ∷ b)

-- What a round leaves for the next one.
abbrev Stepped : Token → Spanned → List Spanned → Bool → Bool → Bool → List TableRef → Scan → Type 0
Stepped token t ts here sure possible refs next =
    (from : Bool) × (below : List Bool) × (next.in_from ≡ from ∷ below)
    × (implies (surely sure token) from ≡ true)
    × (implies (from || some_open below) (maybe possible token) ≡ true)
    × (implies (expects sure token) next.expect_table ≡ true)
    × (implies next.expect_table (expects possible token) ≡ true)
    × (next.refs ≡ refs ++ take_one token t ts here [])

word-Stepped :
    (w : Text) (t : Spanned) (ts : List Spanned) (here sure possible from : Bool)
    (below : List Bool) (refs : List TableRef)
    → implies sure from ≡ true
    → implies (from || some_open below) possible ≡ true
    → Stepped (word w) t ts here sure possible refs (scan_word w from below refs)
unfolding scan_word
word-Stepped w t ts here sure possible from below refs f g =
    let same = sym (append-nil refs) in
    elim (Bool-cases (eq_ignore_ascii_case w (codes "FROM"))) [
      | inl starts ↦ rw starts (true, below, refl, refl, refl, refl, refl, same)
      | inr differs ↦ elim (Bool-cases (eq_ignore_ascii_case w (codes "JOIN"))) [
        | inl joins ↦
            rw (differs, joins)
              (from, below, refl, ground (arith, f), ground (arith, g), refl, refl, same)
        | inr plain ↦ elim (Bool-cases (any (λ k. eq_ignore_ascii_case w k) ends_from)) [
          | inl stops ↦
              rw (differs, plain, stops)
                (false, below, refl, ground (arith, f), ground (arith, g), refl, refl, same)
          | inr goes ↦
              rw (differs, plain, goes)
                (from, below, refl, ground (arith, f), ground (arith, g), refl, refl, same)
        ]
      ]
    ]

if-append :
    (b : Bool) (refs : List TableRef) (r : TableRef)
    → (if b then refs ++ r ∷ [] else refs) ≡ refs ++ (if b then r ∷ [] else [])
if-append true refs r = refl
if-append false refs r = sym (append-nil refs)

token-Stepped :
    (token : Token) (t : Spanned) (ts : List Spanned) (here sure possible from : Bool)
    (below : List Bool) (refs : List TableRef)
    → implies sure from ≡ true
    → implies (from || some_open below) possible ≡ true
    → Stepped token t ts here sure possible refs (scan_token token t ts here from below refs)
unfolding scan_token scan_close
token-Stepped (quoted name) t ts here sure possible from below refs f g = (
  from,
  below,
  refl,
  ground (arith, f),
  ground (arith, g),
  ground (arith, f),
  ground (arith, g),
  if-append (here || is_dot_next ts) refs _,
)
token-Stepped (word w) t ts here sure possible from below refs f g =
    word-Stepped w t ts here sure possible from below refs f g
token-Stepped comma t ts here sure possible from below refs f g = (
  from,
  below,
  refl,
  ground (arith, f),
  ground (arith, g),
  ground (arith, f),
  ground (arith, g),
  sym (append-nil refs),
)
token-Stepped open_paren t ts here sure possible from below refs f g = (
  false,
  from ∷ below,
  refl,
  ground (arith, f),
  ground (arith, g),
  ground (arith, f),
  ground (arith, g),
  sym (append-nil refs),
)
token-Stepped close_paren t ts here sure possible from [] refs f g = (
  from,
  [],
  refl,
  ground (arith, f),
  ground (arith, g),
  ground (arith, f),
  ground (arith, g),
  sym (append-nil refs),
)
token-Stepped close_paren t ts here sure possible from (b ∷ below) refs f g = (
  b,
  below,
  refl,
  ground (arith, f),
  ground (arith, g),
  ground (arith, f),
  ground (arith, g),
  sym (append-nil refs),
)
token-Stepped end t ts here sure possible from below refs f g = (
  false,
  [],
  refl,
  ground (arith, f),
  ground (arith, g),
  ground (arith, f),
  ground (arith, g),
  sym (append-nil refs),
)
token-Stepped dot t ts here sure possible from below refs f g = (
  from,
  below,
  refl,
  ground (arith, f),
  ground (arith, g),
  ground (arith, f),
  ground (arith, g),
  sym (append-nil refs),
)
token-Stepped other t ts here sure possible from below refs f g = (
  from,
  below,
  refl,
  ground (arith, f),
  ground (arith, g),
  ground (arith, f),
  ground (arith, g),
  sym (append-nil refs),
)

if-Within :
    (p q : Bool) (r : TableRef) (a b : List TableRef)
    → implies p q ≡ true
    → Within a b
    → Within (if p then r ∷ a else a) (if q then r ∷ b else b)
if-Within true true r a b h w = keep w
if-Within true false r a b h w = ground (arith, h)
if-Within false true r a b h w = skip w
if-Within false false r a b h w = w

or_either : (p q d : Bool) → implies p q ≡ true → implies (p || d) (q || d) ≡ true
or_either p q d h = ground (arith, h)

-- One token more at the front: the token of a shorter list is taken only if it is of the longer one.
Within-one :
    (token : Token) (t : Spanned) (ts : List Spanned) (low high : Bool) (a b : List TableRef)
    → implies low high ≡ true
    → Within a b
    → Within (take_one token t ts low a) (take_one token t ts high b)
Within-one (quoted name) t ts low high a b h w =
    if-Within (low || is_dot_next ts) (high || is_dot_next ts) _ a b
      (or_either low high (is_dot_next ts) h) w
Within-one (word w') t ts low high a b h w = w
Within-one comma t ts low high a b h w = w
Within-one open_paren t ts low high a b h w = w
Within-one close_paren t ts low high a b h w = w
Within-one end t ts low high a b h w = w
Within-one dot t ts low high a b h w = w
Within-one other t ts low high a b h w = w

take_one-append :
    (token : Token) (t : Spanned) (ts : List Spanned) (here : Bool) (a : List TableRef)
    → take_one token t ts here [] ++ a ≡ take_one token t ts here a
take_one-append (quoted name) t ts here a = ground arith
take_one-append (word w) t ts here a = refl
take_one-append comma t ts here a = refl
take_one-append open_paren t ts here a = refl
take_one-append close_paren t ts here a = refl
take_one-append end t ts here a = refl
take_one-append dot t ts here a = refl
take_one-append other t ts here a = refl

-- What a scan adds lies between the tokens that stand surely and those that may stand where a
-- table goes.
scan-Within :
    (ts : List Spanned) (s : Scan) (sure possible low high : Bool)
    → (from : Bool) × (below : List Bool) × (s.in_from ≡ from ∷ below)
      × (implies sure from ≡ true)
      × (implies (from || some_open below) possible ≡ true)
    → implies low s.expect_table ≡ true
    → implies s.expect_table high ≡ true
    → (last : Scan) × (added : List TableRef) × (scan ts s ≡ some last)
      × (last.refs ≡ s.refs ++ added)
      × Within (taken surely sure low ts) added
      × Within added (taken maybe possible high ts)
unfolding scan taken
scan-Within [] s sure possible low high deep l h =
    (s, [], refl, sym (append-nil s.refs), none_left, none_left)
scan-Within (t ∷ ts) s sure possible low high (from, below, e, f, g) l h =
    let here = s.expect_table in
    let next = scan_token t.token t ts here from below s.refs in
    let (from', below', deep, f', g', l', h', grown) =
      token-Stepped t.token t ts here sure possible from below s.refs f g in
    let (last, added, e', refs, under, over) =
      scan-Within ts next (surely sure t.token) (maybe possible t.token) (expects sure t.token)
        (expects possible t.token) (from', below', deep, f', g') l' h' in
    (
      last,
      take_one t.token t ts here added,
      scan-step t ts s from below e ∙ e',
      refs
          ∙ ap (λ r. r ++ added) grown
          ∙ append_assoc s.refs (take_one t.token t ts here []) added
          ∙ ap (λ r. s.refs ++ r) (take_one-append t.token t ts here added),
      Within-one t.token t ts low here _ added l under,
      Within-one t.token t ts here high added _ h over,
    )

-- Of every statement, the quoted tokens that are found are, in the order of the statement and with
-- their names and spans: all those in front of a dot, directly behind `FROM` or `JOIN`, or directly
-- behind a comma that has a `FROM` before it with no word that ends its list, no parenthesis and no
-- semicolon between; and of the others only some directly behind a comma with a `FROM` before it.
pub table_refs-taken :
    (sql : Text)
    → (ts : List Spanned) × (tokens sql ≡ some ts)
      × (refs : List TableRef) × (table_refs sql ≡ some refs)
      × Within (taken surely false false ts) refs
      × Within refs (taken maybe false false ts)
unfolding table_refs scan_tokens refs_of
table_refs-taken sql =
    let (ts, e, o) = tokens-InOrder sql in
    let (last, added, e', refs, under, over) =
      scan-Within ts start_scan false false false false (false, [], refl, refl, refl) refl refl in
    (ts, e, last.refs, ap scan_tokens e ∙ ap refs_of e', rw refs under, rw refs over)
