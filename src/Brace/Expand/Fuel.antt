-- ===== src/Brace/Expand/Fuel.antt =====
-- packages/rust/src/brace.rs: the expansion ends, within its fuel.
use dirsql.Prelude.{
  all, ℕ, zero, suc, ◌+◌, ◌-◌, ◌*◌, ◌≤◌, ◌<◌, ◌≡◌, refl, inl, inr, Bool, true, false, not, ◌||◌,
  ◌&&◌, Option, some, List, [], ◌∷◌, Text, length, length-take, length-drop, take, drop, ltb,
  ltb→lt, ◌==◌, map, if◌then◌else◌, arith, Bool-cases, Option-cases,
}
use dirsql.Brace.Sequence.{sequence}
use dirsql.Brace.Escape.{escape_braces}
use dirsql.Brace.Escape.Plain.{has_alternation, escape_braces-plain}
use dirsql.Brace.Expand.{
  Stop, close, comma, Indexed, unescaped_at, unescaped, starts_range, target_of, gobble_from,
  starts_closable, gobble, is_shell_brace, find_group, or_literal, both, append_words, amble_of,
  has_comma, expand_word, expand_alternatives, expand,
}

abbrev From : ℕ → Indexed → Type 0
From m [] = Unit
From m ((i, c) ∷ rest) = (m ≤ i) × From m rest

unescaped_at-From :
    (escaped : Bool) (m i : ℕ) (s : Text) → m ≤ i → From m (unescaped_at escaped i s)
unfolding unescaped_at
unescaped_at-From escaped m i [] h = tt
unescaped_at-From escaped m i (c ∷ s) h = elim (Bool-cases (not escaped && not (c == b'\\'))) [
  | inl kept ↦
      rw (kept, unescaped_at)
        (h, unescaped_at-From (not escaped && (c == b'\\')) m (suc i) s (omega arith))
  | inr dropped ↦
      rw (dropped, unescaped_at)
        (unescaped_at-From (not escaped && (c == b'\\')) m (suc i) s (omega arith))
]

-- An index within the text is at least `m`.
abbrev Later : ℕ → Text → ℕ → Type 0
Later m text i = i < length text → m ≤ i

if-Later :
    (m : ℕ) (text : Text) (b : Bool) (x y : ℕ)
    → Later m text x
    → Later m text y
    → Later m text (if b then x else y)
if-Later m text true x y h g = h
if-Later m text false x y h g = g

gobble_from-Later :
    (text : Text) (target level : ℕ) (closable : Bool) (m : ℕ) (rest : Indexed)
    → From m rest
    → Later m text (gobble_from text target level closable rest)
unfolding gobble_from
gobble_from-Later text target level closable m [] h = λ g. omega (arith, g)
gobble_from-Later text target level closable m ((i, c) ∷ rest) h =
    let next = closable || ((level == 0) && ((c == b',') || starts_range (drop i text))) in
    if-Later m text ((c == target) && (level == 0) && closable) _ _ (λ g. h.0)
      (if-Later m text (c == b'{') _ _
        (gobble_from-Later text target (level + 1) closable m rest (h.1))
        (if-Later m text ((c == b'}') && ltb 0 level) _ _
          (gobble_from-Later text target (level - 1) closable m rest (h.1))
          (gobble_from-Later text target level next m rest (h.1))))

gobble-Later : (text : Text) (m : ℕ) (stop : Stop) → Later m text (gobble text m stop)
unfolding gobble unescaped
gobble-Later text m stop =
    gobble_from-Later text (target_of stop) 0 (starts_closable stop) m (unescaped text m)
      (unescaped_at-From false m m (drop m text) (omega arith))

found :
    (text : Text) (i end : ℕ) (later : Option (ℕ × ℕ)) (g : ℕ × ℕ) (opens : Bool)
    → (if opens && ltb end (length text) then some (i, end) else later) ≡ some g
    → Later (i + 1) text end
    → (later ≡ some g → (g.0 < g.1) × (g.1 < length text))
    → (g.0 < g.1) × (g.1 < length text)
found text i end later g opens e h k = elim (Bool-cases (opens && ltb end (length text))) [
  | inl fits ↦
      let within = ltb→lt end (length text) (ground (arith, fits)) in
      let same : some (i, end) ≡ some g = let e' = rw fits at e in e' in
      ground (arith, same, within, h within)
  | inr not_here ↦ k (let e' = rw not_here at e in e')
]

-- What `find_group` finds: the group begins before it ends, and it ends within the text.
find_group-Within :
    (text : Text) (rest : Indexed) (g : ℕ × ℕ)
    → find_group text rest ≡ some g
    → (g.0 < g.1) × (g.1 < length text)
unfolding find_group
find_group-Within text [] g e = ground (arith, e)
find_group-Within text ((i, c) ∷ rest) g e =
    let end = gobble text (i + 1) close in
    found text i end (find_group text rest) g ((c == b'{') && not (is_shell_brace text i)) e
      (gobble-Later text (i + 1) close) (find_group-Within text rest g)

abbrev pub Ends : Option (List Text) → Type 0
Ends o = (words : List Text) × (o ≡ some words)

both-Ends :
    (preamble : Text) (a b : Option (List Text)) → Ends a → Ends b → Ends (both preamble a b)
unfolding both
both-Ends preamble a b (ws, e) (vs, f) = rw (e, f, both) (_, refl)

append_words-Ends : (a b : Option (List Text)) → Ends a → Ends b → Ends (append_words a b)
unfolding append_words
append_words-Ends a b (ws, e) (vs, f) = rw (e, f, append_words) (_, refl)

choose-Ends :
    (b : Bool) (x y : Option (List Text))
    → (b ≡ true → Ends x)
    → Ends y
    → Ends (elim b [ true ↦ x | false ↦ y ])
choose-Ends true x y h g = h refl
choose-Ends false x y h g = g

length-amble_of :
    (text : Text) (begin end : ℕ)
    → begin < end
    → end < length text
    → length (amble_of text begin end) + 2 ≤ length text
unfolding amble_of
length-amble_of text begin end h g =
    omega (arith, length-take (end - (begin + 1)) (drop (begin + 1) text), h, g)

mutual
  unfolding expand_word

  expand_word-Ends :
      (fuel : ℕ) (text : Text) → 2 * length text < fuel → Ends (expand_word fuel text)
  expand_word-Ends zero text h = elim h [ ]
  expand_word-Ends (suc fuel) text h = elim (Option-cases (find_group text (unescaped text 0))) [
    | inl none_found ↦ rw (none_found, expand_word) (text ∷ [], refl)
    | inr ((begin, end), e) ↦
        let amble = amble_of text begin end in
        let within = find_group-Within text (unescaped text 0) (begin, end) e in
        rw (e, expand_word)
          (both-Ends (take begin text)
            (elim (has_comma amble) [
              | true ↦ expand_alternatives fuel amble
              | false ↦ some (or_literal amble (sequence amble))
            ])
            (expand_word fuel (drop (end + 1) text))
            (choose-Ends (has_comma amble) (expand_alternatives fuel amble)
              (some (or_literal amble (sequence amble)))
              (λ is.
                expand_alternatives-Ends fuel amble
                  (omega (arith, length-amble_of text begin end (within.0) (within.1), h)))
              (or_literal amble (sequence amble), refl))
            (expand_word-Ends fuel (drop (end + 1) text)
              (omega (arith, length-drop (end + 1) text, within.0, within.1, h))))
  ]

  expand_alternatives-Ends :
      (fuel : ℕ) (amble : Text)
      → 2 * length amble + 1 < fuel
      → Ends (expand_alternatives fuel amble)
  expand_alternatives-Ends zero amble h = elim h [ ]
  expand_alternatives-Ends (suc fuel) amble h =
      let end = gobble amble 0 comma in
      let first =
        expand_word-Ends fuel (take end amble) (omega (arith, length-take end amble, h)) in
      choose-Ends (ltb end (length amble))
        (append_words (expand_word fuel (take end amble))
          (expand_alternatives fuel (drop (end + 1) amble)))
        (expand_word fuel (take end amble))
        (λ within.
          append_words-Ends (expand_word fuel (take end amble))
            (expand_alternatives fuel (drop (end + 1) amble)) first
            (expand_alternatives-Ends fuel (drop (end + 1) amble)
              (omega (arith, length-drop (end + 1) amble, ltb→lt end (length amble) within, h))))
        first

escaped-plain :
    (words : List Text) → all (λ w. not (has_alternation 0 w)) (map escape_braces words) ≡ true
escaped-plain [] = refl
escaped-plain (w ∷ words) = ground (arith, escape_braces-plain w, escaped-plain words)

-- The expansion of every pattern ends with a list of words, as no call goes deeper than twice the
-- pattern's length, and globset reads none of their braces as an alternation.
pub expand-Ends :
    (pattern : Text)
    → (words : List Text) × (expand pattern ≡ some words)
      × (all (λ w. not (has_alternation 0 w)) words ≡ true)
unfolding expand
expand-Ends pattern =
    let (words, e) = expand_word-Ends (2 * length pattern + 1) pattern (omega arith) in
    (map escape_braces words, rw e refl, escaped-plain words)
