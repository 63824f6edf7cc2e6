-- ===== src/Tests/Glob.antt =====
-- Brace ranges and groups, brackets and escapes, on small inputs.
use dirsql.Prelude.{
  all, ℕ, Bool, Option, none, some, Text, length, ◌==◌, ◌-◌, ◌^◌, ◌≤◌, ◌<◌, ◌*◌, ◌⊎◌, get_elem?,
  ◌≡◌, refl, true, false, not, List, [], ◌∷◌, codes,
}
use dirsql.Prelude.Int.{ℤ, pos, negsuc, ◌-ℤ◌}
use dirsql.Brace.Steps.{abs, steps}
use dirsql.Brace.Steps.Bounds.{Between, steps-Between}
use dirsql.Brace.Expand.{expand}
use dirsql.Brace.Expand.Fuel.{expand-Ends}
use dirsql.Brace.Escape.Plain.{has_alternation}
use dirsql.CollatingSymbol.{collating_symbol}
use dirsql.PosixClass.Classes.{Range}
use dirsql.PathGlob.{Component, any_depth, name, dot_name, dir, step, is_dot_named, Stat}
use dirsql.PathGlob.Hidden.{step-hidden}
use dirsql.GlobUnescape.{unescape}
use dirsql.GlobUnescape.Quoting.{quote_chars, unescape-quote_chars}

steps-Between_example :
    ((2 ^ 31 - 4 < 2) × (steps (pos 3) (negsuc 1) (pos 2) ≡ none))
    ⊎ ((2 ≤ 2 ^ 31 - 4)
        × (ns : List ℤ) × (steps (pos 3) (negsuc 1) (pos 2) ≡ some ns)
        × (length ns ≡ 3)
        × ((k : ℕ)
            → k ≤ 2
            → (n : ℤ) × (get_elem? ns k ≡ some n)
              × (abs (n -ℤ pos 3) ≡ k * 2)
              × Between (pos 3) (negsuc 1) n))
unfolding ◌-ℤ◌
steps-Between_example = steps-Between (pos 3) (negsuc 1) (pos 2)

abbrev pattern : Text
pattern = codes "a{b,{1..3}}{q}"

expand-Ends_example :
    (words : List Text) × (expand pattern ≡ some words)
    × (all (λ w. not (has_alternation 0 w)) words ≡ true)
expand-Ends_example = expand-Ends pattern

hyphen : collating_symbol (codes "hyphen") ≡ some b'-'
unfolding collating_symbol
hyphen = refl

abbrev ranges : List Range
ranges = (b'+', b'0') ∷ (b'a', b'z') ∷ []

abbrev members : Text
members = codes "[:digit:]a-c]x"

unescape-quote_chars_example :
    unescape (quote_chars (λ c. c == b'*') (codes "a*b\\c")) ≡ codes "a*b\\c"
unescape-quote_chars_example = unescape-quote_chars (λ c. c == b'*') (codes "a*b\\c")

abbrev components : List (Component ℕ)
components = any_depth ∷ name 1 ∷ Component.end ∷ dot_name 2 ∷ Component.end ∷ []

abbrev is_length : ℕ → Text → Bool
is_length n entry = length entry == n

dotted : is_dot_named (codes ".git") ≡ true
unfolding is_dot_named
dotted = refl

step-hidden_example : step is_length components (0 ∷ 1 ∷ 3 ∷ []) (codes ".git") dir ≡ []
step-hidden_example =
    step-hidden is_length components (0 ∷ 1 ∷ 3 ∷ []) (codes ".git") dir dotted refl

abbrev stat_link : Bool → Option Stat
stat_link true = some (record { is_link = false; is_dir = true; is_file = false })
stat_link false = some (record { is_link = true; is_dir = false; is_file = false })

abbrev stat_broken : Bool → Option Stat
stat_broken true = none
stat_broken false = stat_link false
