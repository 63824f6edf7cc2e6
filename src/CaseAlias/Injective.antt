-- ===== src/CaseAlias/Injective.antt =====
-- packages/rust/src/table_refs.rs: distinct names have distinct aliases, also where case is folded.
use dirsql.Prelude.{◌≡◌, refl, [], ◌∷◌, map, Text, to_ascii_lowercase, arith}
use dirsql.CaseAlias.{alias_chars, case_alias}

alias_chars-injective :
    (a b : Text)
    → map to_ascii_lowercase (alias_chars a) ≡ map to_ascii_lowercase (alias_chars b)
    → a ≡ b
unfolding alias_chars
alias_chars-injective [] [] h = refl
alias_chars-injective [] (d ∷ b) h = ground arith
alias_chars-injective (c ∷ a) [] h = ground arith
alias_chars-injective (c ∷ a) (d ∷ b) h = ground (arith, alias_chars-injective a b)

-- Distinct names have aliases that stay distinct when SQLite folds ASCII letters: no two
-- spellings share one.
pub case_alias-Injective :
    (a b : Text)
    → map to_ascii_lowercase (case_alias a) ≡ map to_ascii_lowercase (case_alias b)
    → a ≡ b
unfolding case_alias
case_alias-Injective a b h = ground (arith, alias_chars-injective a b)
