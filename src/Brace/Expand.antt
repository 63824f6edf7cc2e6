-- ===== src/Brace/Expand.antt =====
-- packages/rust/src/brace.rs (`expand`, `unescaped`, `gobble`, `is_shell_brace`, `expand_word`,
-- `expand_alternatives`): the groups of a pattern. Fuel bounds the nesting of the calls; `none` means
-- that it ran out.
pub mod Fuel
use mathlib.Core.Option
use mathlib.Core.List.{flat_map}
use dirsql.Prelude.{
  ℕ, zero, suc, ◌+◌, ◌-◌, ◌*◌, Bool, true, false, not, ◌||◌, ◌&&◌, Option, none, some, List, [],
  ◌∷◌, ◌++◌, map, Text, any, length, take, drop, ltb, ◌==◌, get_elem?, is_ascii_whitespace,
  if◌then◌else◌,
}
use dirsql.Brace.Sequence.{sequence}
use dirsql.Brace.Escape.{escape_braces}

pub data Stop : Type 0 where
  close comma : Stop

abbrev pub Indexed : Type 0
Indexed = List (ℕ × ℕ)

-- The `filter` of `unescaped`, at index `i`.
unescaped_at : Bool → ℕ → Text → Indexed
unescaped_at escaped i [] = []
unescaped_at escaped i (c ∷ s) =
    let rest = unescaped_at (not escaped && (c == b'\\')) (suc i) s in
    if not escaped && not (c == b'\\') then (i, c) ∷ rest else rest

pub unescaped : Text → ℕ → Indexed
unfolding unescaped_at
unescaped text from = unescaped_at false from (drop from text)

-- `text[i..].starts_with("..") && text.get(i + 2) != Some(&'}')`
starts_range : Text → Bool
starts_range (a ∷ b ∷ []) = (a == b'.') && (b == b'.')
starts_range (a ∷ b ∷ c ∷ s) = (a == b'.') && (b == b'.') && not (c == b'}')
starts_range _ = false

target_of : Stop → ℕ
target_of close = b'}'
target_of comma = b','

-- The loop of `gobble`.
pub gobble_from : Text → ℕ → ℕ → Bool → Indexed → ℕ
unfolding starts_range
gobble_from text target level closable [] = length text
gobble_from text target level closable ((i, c) ∷ rest) =
    if (c == target) && (level == 0) && closable
    then i
    else if c == b'{'
    then gobble_from text target (level + 1) closable rest
    else if (c == b'}') && ltb 0 level
    then gobble_from text target (level - 1) closable rest
    else gobble_from text target level
        (closable || ((level == 0) && ((c == b',') || starts_range (drop i text)))) rest

starts_closable : Stop → Bool
starts_closable close = false
starts_closable comma = true

pub gobble : Text → ℕ → Stop → ℕ
unfolding gobble_from unescaped target_of starts_closable
gobble text from stop =
    gobble_from text (target_of stop) 0 (starts_closable stop) (unescaped text from)

space_at : Option ℕ → Bool
space_at none = false
space_at (some c) = is_ascii_whitespace c

space_or_close : Option ℕ → Bool
space_or_close none = false
space_or_close (some c) = is_ascii_whitespace c || (c == b'}')

pub is_shell_brace : Text → ℕ → Bool
unfolding space_at space_or_close
is_shell_brace text i =
    ((i == 0) || space_at (get_elem? text (i - 1))) && space_or_close (get_elem? text (i + 1))

-- The `filter` and `find_map` of `expand_word`.
pub find_group : Text → Indexed → Option (ℕ × ℕ)
unfolding gobble is_shell_brace
find_group text [] = none
find_group text ((i, c) ∷ rest) =
    let later = find_group text rest in
    let end = gobble text (i + 1) close in
    if (c == b'{') && not (is_shell_brace text i) && ltb end (length text)
    then some (i, end)
    else later

or_literal : Text → Option (List Text) → List Text
or_literal amble none = (b'{' ∷ amble ++ b'}' ∷ []) ∷ []
or_literal amble (some words) = words

-- Each of `middle` before each of `rest`, behind the preamble.
pub combine : Text → List Text → List Text → List Text
combine preamble middle rest = flat_map (λ m. map (λ r. preamble ++ m ++ r) rest) middle

both : Text → Option (List Text) → Option (List Text) → Option (List Text)
unfolding combine
both preamble (some middle) (some rest) = some (combine preamble middle rest)
both preamble _ _ = none

append_words : Option (List Text) → Option (List Text) → Option (List Text)
append_words (some words) (some more) = some (words ++ more)
append_words _ _ = none

-- `text[open + 1..close]`
amble_of : Text → ℕ → ℕ → Text
amble_of text begin end = take (end - (begin + 1)) (drop (begin + 1) text)

has_comma : Text → Bool
unfolding unescaped
has_comma amble = any (λ p. p.1 == b',') (unescaped amble 0)

mutual
  unfolding unescaped has_comma gobble find_group sequence or_literal both append_words amble_of

  pub expand_word : ℕ → Text → Option (List Text)
  expand_word zero text = none
  expand_word (suc fuel) text = elim (find_group text (unescaped text 0)) [
    | none ↦ some (text ∷ [])
    | some (begin, end) ↦
        let amble = amble_of text begin end in
        both (take begin text)
          (elim (has_comma amble) [
            | true ↦ expand_alternatives fuel amble
            | false ↦ some (or_literal amble (sequence amble))
          ])
          (expand_word fuel (drop (end + 1) text))
  ]

  pub expand_alternatives : ℕ → Text → Option (List Text)
  expand_alternatives zero amble = none
  expand_alternatives (suc fuel) amble =
      let end = gobble amble 0 comma in
      elim (ltb end (length amble)) [
        | true ↦
            append_words (expand_word fuel (take end amble))
              (expand_alternatives fuel (drop (end + 1) amble))
        | false ↦ expand_word fuel (take end amble)
      ]

-- Every nested call is on less than the text, or on all of it once.
pub expand : Text → Option (List Text)
unfolding expand_word
expand pattern = Option.map (map escape_braces) (expand_word (2 * length pattern + 1) pattern)
