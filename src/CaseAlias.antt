-- ===== src/CaseAlias.antt =====
-- packages/rust/src/table_refs.rs (`case_alias`): the name under which a case variant of a table is
-- minted.
pub mod Injective
use dirsql.Prelude.{
  ℕ, ◌+◌, List, [], ◌∷◌, Text, ◌==◌, is_ascii_uppercase, to_ascii_lowercase, if◌then◌else◌,
}

abbrev pub caret : ℕ
caret = 94

-- The loop over the characters, behind the control character that starts an alias.
pub alias_chars : Text → Text
alias_chars [] = []
alias_chars (c ∷ name) =
    let rest = alias_chars name in
    if c == caret
    then caret ∷ caret ∷ rest
    else if is_ascii_uppercase c
    then caret ∷ to_ascii_lowercase c ∷ rest
    else c ∷ rest

pub case_alias : Text → Text
unfolding alias_chars
case_alias name = 1 ∷ alias_chars name
