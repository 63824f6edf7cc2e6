-- ===== src/TableRefs.antt =====
-- packages/rust/src/table_refs.rs: the quoted names that a statement reads as tables. A statement
-- is a list of code points, and spans count the bytes of its UTF-8. The last element of the vector
-- `in_from` is the head of the list. `none` is a failure of the `expect`, or of the lexer's fuel.
pub mod Lexer
pub mod Order
pub mod Taken
use dirsql.Prelude.{
  ℕ, ◌+◌, Bool, true, false, ◌&&◌, ◌||◌, Option, none, some, List, [], ◌∷◌, ◌++◌, map, Text, codes,
  text_eq, any, length, to_ascii_lowercase, if◌then◌else◌,
}
use Lexer.{Token, Spanned, quoted, word, open_paren, close_paren, comma, dot, end, other, tokens}

pub record TableRef : Type 0 where
  pub start : ℕ
  pub stop : ℕ
  pub name : Text

pub eq_ignore_ascii_case : Text → Text → Bool
eq_ignore_ascii_case a b = text_eq (map to_ascii_lowercase a) (map to_ascii_lowercase b)

abbrev ends_from : List Text
ends_from =
    codes "WHERE"
    ∷ codes "GROUP"
    ∷ codes "HAVING"
    ∷ codes "ORDER"
    ∷ codes "LIMIT"
    ∷ codes "WINDOW"
    ∷ codes "SELECT"
    ∷ codes "VALUES"
    ∷ codes "UNION"
    ∷ codes "EXCEPT"
    ∷ codes "INTERSECT"
    ∷ codes "RETURNING"
    ∷ []

-- The variables of the loop.
pub record Scan : Type 0 where
  pub in_from : List Bool
  pub expect_table : Bool
  pub refs : List TableRef

abbrev pub start_scan : Scan
start_scan = record { in_from = false ∷ []; expect_table = false; refs = [] }

-- `matches!(tokens.get(i + 1), Some((_, Token::Dot)))`
pub is_dot_next : List Spanned → Bool
is_dot_next [] = false
is_dot_next (t ∷ ts) = elim t.token [ dot ↦ true | _ ↦ false ]

scan_word : Text → Bool → List Bool → List TableRef → Scan
unfolding eq_ignore_ascii_case
scan_word w from below refs =
    if eq_ignore_ascii_case w (codes "FROM")
    then record { in_from = true ∷ below; expect_table = true; refs = refs }
    else if eq_ignore_ascii_case w (codes "JOIN")
    then record { in_from = from ∷ below; expect_table = true; refs = refs }
    else if any (λ k. eq_ignore_ascii_case w k) ends_from
    then record { in_from = false ∷ below; expect_table = false; refs = refs }
    else record { in_from = from ∷ below; expect_table = false; refs = refs }

scan_close : Bool → List Bool → List TableRef → Scan
scan_close from [] refs = record { in_from = from ∷ []; expect_table = false; refs = refs }
scan_close from (b ∷ below) refs = record { in_from = b ∷ below; expect_table = false; refs = refs }

-- One round of the loop: `from ∷ below` is `in_from`, `table_here` what `expect_table` was.
pub scan_token : Token → Spanned → List Spanned → Bool → Bool → List Bool → List TableRef → Scan
unfolding scan_word scan_close is_dot_next
scan_token (quoted name) t ts table_here from below refs = record {
  in_from = from ∷ below;
  expect_table = false;
  refs =
      if table_here || is_dot_next ts
      then refs ++ (record { start = t.start; stop = t.stop; name = name }) ∷ []
      else refs;
}
scan_token (word w) t ts table_here from below refs = scan_word w from below refs
scan_token comma t ts table_here from below refs = record {
  in_from = from ∷ below;
  expect_table = from;
  refs = refs;
}
scan_token open_paren t ts table_here from below refs = record {
  in_from = false ∷ from ∷ below;
  expect_table = false;
  refs = refs;
}
scan_token close_paren t ts table_here from below refs = scan_close from below refs
scan_token end t ts table_here from below refs = record {
  in_from = false ∷ [];
  expect_table = false;
  refs = refs;
}
scan_token dot t ts table_here from below refs = record {
  in_from = from ∷ below;
  expect_table = false;
  refs = refs;
}
scan_token other t ts table_here from below refs = record {
  in_from = from ∷ below;
  expect_table = false;
  refs = refs;
}

scan_round : Spanned → List Spanned → Bool → List TableRef → List Bool → Option Scan
unfolding scan_token
scan_round t ts table_here refs [] = none
scan_round t ts table_here refs (from ∷ below) =
    some (scan_token t.token t ts table_here from below refs)

pub scan : List Spanned → Scan → Option Scan
unfolding scan_round
scan [] s = some s
scan (t ∷ ts) s = elim (scan_round t ts s.expect_table s.refs s.in_from) [
  | none ↦ none
  | some next ↦ scan ts next
]

refs_of : Option Scan → Option (List TableRef)
refs_of none = none
refs_of (some s) = some s.refs

scan_tokens : Option (List Spanned) → Option (List TableRef)
unfolding scan refs_of
scan_tokens none = none
scan_tokens (some ts) = refs_of (scan ts start_scan)

pub table_refs : Text → Option (List TableRef)
unfolding scan_tokens
table_refs sql = scan_tokens (tokens sql)
