-- ===== src/Tests/Sql.antt =====
-- Literals, table references, aliases and parameters, on small inputs.
use dirsql.Prelude.{
  ℕ, ◌≡◌, ◌++◌, false, ◌↔◌, refl, true, Option, none, some, List, [], ◌∷◌, Text, codes, byte_len,
  length,
}
use dirsql.SqlLiteral.{single_quote, double_quote, double, quote_literal, quote_identifier, unquote}
use dirsql.SqlLiteral.RoundTrip.{unquote-quote}
use dirsql.CaseAlias.Injective.{case_alias-Injective}
use dirsql.TableRefs.{TableRef, table_refs}
use dirsql.TableRefs.Order.{RefsInOrder, table_refs-InOrder}
use dirsql.TableRefs.Taken.{Within, taken, surely, maybe, table_refs-taken}
use dirsql.TableRefs.Lexer.{Spanned, quoted, lex_one, tokens}
use dirsql.TableRefs.Lexer.Quoted.{lex_one-quote}
use dirsql.Params.{positional, named, ok, plan}
use dirsql.Params.Plan.{nameless, Binds, all_used, plan-positional, plan-named}

abbrev odd_name : Text
odd_name = codes "it's \"a\""

unquote-quote_example :
    (unquote (quote_literal odd_name) ≡ odd_name) × (unquote (quote_identifier odd_name) ≡ odd_name)
unquote-quote_example = unquote-quote odd_name

case_alias-Injective_example : codes "src" ≡ codes "src"
case_alias-Injective_example = case_alias-Injective (codes "src") (codes "src") refl

abbrev statement : Text
statement = codes "SELECT * FROM \"src\" JOIN 'a' -- x"

table_refs-InOrder_example :
    (refs : List TableRef) × (table_refs statement ≡ some refs)
    × RefsInOrder 0 (byte_len statement) refs
table_refs-InOrder_example = table_refs-InOrder statement

abbrev joined : Text
joined = codes "SELECT 'a', x.'b' FROM './c', './d' JOIN \"e\" ON \"e\".id WHERE 'f' = 'g'"

table_refs-taken_example :
    (ts : List Spanned) × (tokens joined ≡ some ts)
    × (refs : List TableRef) × (table_refs joined ≡ some refs)
    × Within (taken surely false false ts) refs
    × Within refs (taken maybe false false ts)
table_refs-taken_example = table_refs-taken joined

lex_one-quote_example :
    (lex_one double_quote (double double_quote odd_name ++ double_quote ∷ codes " JOIN x")
      ≡ (some (quoted odd_name), codes " JOIN x"))
    × (lex_one single_quote (double single_quote odd_name ++ single_quote ∷ codes " JOIN x")
        ≡ (some (quoted odd_name), codes " JOIN x"))
lex_one-quote_example = lex_one-quote odd_name (codes " JOIN x") refl refl

abbrev two_values : List ℕ
two_values = 7 ∷ 8 ∷ []

abbrev bare : List (Option Text)
bare = none ∷ none ∷ []

plan-positional_example :
    (plan bare (positional two_values) ≡ ok two_values)
    ↔ ((nameless bare ≡ true) × (length bare ≡ length two_values) × (two_values ≡ two_values))
plan-positional_example = plan-positional bare two_values two_values

abbrev names : List (Option Text)
names = some (codes ":a") ∷ some (codes "@b") ∷ []

abbrev values : List (Text × ℕ)
values = (codes "b", 2) ∷ (codes "a", 1) ∷ []

plan-named_example :
    (plan names (named values) ≡ ok (1 ∷ 2 ∷ []))
    ↔ (Binds values names (1 ∷ 2 ∷ []) × (all_used names values ≡ true))
plan-named_example = plan-named names values (1 ∷ 2 ∷ [])
