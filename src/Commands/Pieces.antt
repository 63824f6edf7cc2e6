-- ===== src/Commands/Pieces.antt =====
-- packages/rust/src/command.rs (`substitute`): the values of placeholders are not read again.
use dirsql.Prelude.{
  ℕ, zero, suc, ◌+◌, ◌≡◌, refl, sym, ap, ap₂, ◌∙◌, inl, inr, Bool, true, false, Option, none, some,
  List, [], ◌∷◌, ◌++◌, append_assoc, map, Text, text_eq, ◌==◌, ==_iff, ◌⊎◌, length, drop,
  if◌then◌else◌, arith, Bool-cases, Option-cases,
}
use mathlib.Core.List.{flatten}
use dirsql.Commands.{
  Placeholder, before, find_placeholder, match_placeholder, substitute_from, substitute,
}

-- A token as its characters and the names of its placeholders.
pub data Piece : Type 0 where
  literal : ℕ → Piece
  named : Text → Piece

abbrev pub written : Piece → Text
written (literal c) = c ∷ []
written (named name) = b'{' ∷ name ++ b'}' ∷ []

abbrev pub is_name : Text → List Text → Bool
is_name name [] = false
is_name name (n ∷ names) = if text_eq n name then true else is_name name names

-- The name at the start of a text, where it is a placeholder's.
unfoldable pub name_at : Text → List Text → Option Text
name_at [] names = none
name_at (c ∷ s) names =
    if c == b'{'
    then elim (before b'}' s) [
      | none ↦ none
      | some name ↦ if is_name name names then some name else none
    ]
    else none

unfoldable pub pieces_from : ℕ → Text → List Text → List Piece
unfolding name_at
pieces_from skip [] names = []
pieces_from (suc skip) (c ∷ s) names = pieces_from skip s names
pieces_from zero (c ∷ s) names = elim (name_at (c ∷ s) names) [
  | none ↦ literal c ∷ pieces_from 0 s names
  | some name ↦ named name ∷ pieces_from (length name + 1) s names
]

abbrev pub value_at : Text → Option Placeholder → Text
value_at name none = []
value_at name (some p) = p.value

abbrev pub filled : List Placeholder → Piece → Text
filled placeholders (literal c) = c ∷ []
filled placeholders (named name) = value_at name (find_placeholder name placeholders)

abbrev pub names_of : List Placeholder → List Text
names_of placeholders = map (λ (p : Placeholder). p.name) placeholders

before-splits :
    (d : ℕ) (s name : Text) → before d s ≡ some name → s ≡ name ++ d ∷ drop (length name + 1) s
unfolding before
before-splits d [] name e = ground (arith, e)
before-splits d (c ∷ s) name e = elim (Bool-cases (c == d)) [
  | inl same ↦
      let empty = rw same at e in
      let none_before : [] ≡ name = some_eq [] name empty in
      rw (sym none_before) (ap (λ x. x ∷ s) ((==_iff c d).0 same))
  | inr apart ↦ elim (Option-cases (before d s)) [
    | inl none_there ↦ absurd (clash name (let e' = rw (apart, none_there) at e in e'))
    | inr (rest, there) ↦
        let found = some_eq (c ∷ rest) name (let e' = rw (apart, there) at e in e') in
        rw (sym found) (
          ap (λ x. c ∷ x) (before-splits d s rest there)
          ∙ ap (λ n. c ∷ rest ++ d ∷ drop n (c ∷ s)) (sym (one_more (length rest))))
  ]
]
  where
    one_more : (n : ℕ) → suc n + 1 ≡ suc (n + 1)
    one_more n = omega arith

    clash : (name : Text) → none ≡ some name → ⊥
    clash name e = ground (arith, e)

    some_eq : (x y : Text) → some x ≡ some y → x ≡ y
    some_eq x y e = ground (arith, e)

is_name-find :
    (name : Text) (placeholders : List Placeholder)
    → is_name name (names_of placeholders) ≡ true
    → (p : Placeholder) × (find_placeholder name placeholders ≡ some p)
unfolding find_placeholder
is_name-find name [] e = ground (arith, e)
is_name-find name (q ∷ placeholders) e = elim (Bool-cases (text_eq q.name name)) [
  | inl same ↦ (q, rw same refl)
  | inr apart ↦
      let (p, there) = is_name-find name placeholders (let e' = rw apart at e in e') in
      (p, rw apart there)
]

is_name-absent :
    (name : Text) (placeholders : List Placeholder)
    → is_name name (names_of placeholders) ≡ false
    → find_placeholder name placeholders ≡ none
unfolding find_placeholder
is_name-absent name [] e = refl
is_name-absent name (q ∷ placeholders) e = elim (Bool-cases (text_eq q.name name)) [
  | inl same ↦ ground (arith, e, same)
  | inr apart ↦ rw apart (is_name-absent name placeholders (let e' = rw apart at e in e'))
]

-- The placeholder at the start of a text is the first with the name there.
abbrev Matched : ℕ → Text → List Placeholder → Type 0
Matched c s placeholders =
    (name : Text) × (p : Placeholder) × (c ≡ b'{')
    × (before b'}' s ≡ some name)
    × (name_at (c ∷ s) (names_of placeholders) ≡ some name)
    × (find_placeholder name placeholders ≡ some p)
    × (match_placeholder (c ∷ s) placeholders ≡ some (p, suc (length name + 1)))

match-cases :
    (c : ℕ) (s : Text) (placeholders : List Placeholder)
    → ((name_at (c ∷ s) (names_of placeholders) ≡ none)
        × (match_placeholder (c ∷ s) placeholders ≡ none))
      ⊎ Matched c s placeholders
unfolding name_at match_placeholder
match-cases c s placeholders = elim (Bool-cases (c == b'{')) [
  | inr other ↦ inl (rw other refl, rw other refl)
  | inl brace ↦ elim (Option-cases (before b'}' s)) [
    | inl open_end ↦ inl (rw (brace, open_end) refl, rw (brace, open_end) refl)
    | inr (name, closed) ↦ elim (Bool-cases (is_name name (names_of placeholders))) [
      | inl known ↦
          let (p, there) = is_name-find name placeholders known in
          inr (
            name,
            p,
            (==_iff c b'{').0 brace,
            closed,
            rw (brace, closed, known) refl,
            there,
            rw (brace, closed, there) refl,
          )
      | inr unknown ↦ inl (
        rw (brace, closed, unknown) refl,
        rw (brace, closed, is_name-absent name placeholders unknown) refl,
      )
    ]
  ]
]

pieces-written :
    (k : ℕ) (s : Text) (placeholders : List Placeholder)
    → flatten (map written (pieces_from k s (names_of placeholders))) ≡ drop k s
unfolding pieces_from flatten
pieces-written k [] placeholders = drop_none k
  where
    drop_none : (k : ℕ) → ◌≡◌ {A = Text} [] (drop k [])
    drop_none zero = refl
    drop_none (suc k) = refl
pieces-written (suc k) (c ∷ s) placeholders = pieces-written k s placeholders
pieces-written zero (c ∷ s) placeholders = elim (match-cases c s placeholders) [
  | inl (absent, unmatched) ↦
      rw (pieces_from, absent) (ap (λ x. c ∷ x) (pieces-written 0 s placeholders))
  | inr (name, p, brace, closed, there, found, matched) ↦
      rw (pieces_from, there)
        (ap₂ (λ a b. a ∷ b) (sym brace)
          (append_assoc name (b'}' ∷ [])
              (flatten (map written (pieces_from (length name + 1) s (names_of placeholders))))
            ∙ ap (λ x. name ++ b'}' ∷ x) (pieces-written (length name + 1) s placeholders)
            ∙ sym (before-splits b'}' s name closed)))
]

pieces-filled :
    (k : ℕ) (s : Text) (placeholders : List Placeholder)
    → substitute_from k s placeholders
      ≡ flatten (map (filled placeholders) (pieces_from k s (names_of placeholders)))
unfolding pieces_from flatten substitute_from
pieces-filled k [] placeholders = refl
pieces-filled (suc k) (c ∷ s) placeholders = pieces-filled k s placeholders
pieces-filled zero (c ∷ s) placeholders = elim (match-cases c s placeholders) [
  | inl (absent, unmatched) ↦
      rw (substitute_from, unmatched, pieces_from, absent)
        (ap (λ x. c ∷ x) (pieces-filled 0 s placeholders))
  | inr (name, p, brace, closed, there, found, matched) ↦
      rw (substitute_from, matched, pieces_from, there)
        (ap₂ (λ a b. a ++ b) (sym (ap (value_at name) found))
          (ap (λ n. substitute_from n s placeholders) (omega arith)
            ∙ pieces-filled (length name + 1) s placeholders))
]

-- A token has pieces that only it and the placeholders' names decide: its characters and, in braces,
-- names of placeholders. Written out they are the token, and the substitution puts each name's value,
-- whatever it holds, in the name's place and keeps the rest.
pub substitute-pieces :
    (token : Text) (placeholders : List Placeholder)
    → (flatten (map written (pieces_from 0 token (names_of placeholders))) ≡ token)
      × (substitute token placeholders
          ≡ flatten (map (filled placeholders) (pieces_from 0 token (names_of placeholders))))
unfolding substitute
substitute-pieces token placeholders =
    (pieces-written 0 token placeholders, pieces-filled 0 token placeholders)
