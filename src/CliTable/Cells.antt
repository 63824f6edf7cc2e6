-- ===== src/CliTable/Cells.antt =====
-- packages/rust/src/cli/table.rs: what a cell can hold.
use dirsql.Prelude.{
  ℕ, zero, suc, ◌+◌, ◌/◌, ◌%◌, ◌≤◌, ◌<◌, ◌≡◌, refl, Bool, true, false, not, ◌&&◌, Option, none,
  some, [], ◌∷◌, ◌++◌, Text, codes, length, length-append, length-take, take, get_elem?, all, ltb,
  ◌==◌, digit, digits_from, hexadecimal, if◌then◌else◌, arith,
}
use dirsql.Json.{Json}
use dirsql.CliTable.{
  max_cell, ellipsis, is_control, flatten_char, flatten, mark_cut, truncate, cell, raw_text,
}

abbrev pub is_plain : Text → Bool
is_plain s = all (λ c. not (is_control c)) s

plain-append : (s t : Text) → is_plain (s ++ t) ≡ (is_plain s && is_plain t)
plain-append [] t = refl
plain-append (c ∷ s) t = ground (arith, plain-append s t)

plain-both : (s t : Text) → is_plain s ≡ true → is_plain t ≡ true → is_plain (s ++ t) ≡ true
plain-both s t h g = ground (arith, plain-append s t, h, g)

digit-plain : (n : ℕ) → is_plain (digit (n % 16) ∷ []) ≡ true
digit-plain n = bounded (n % 16) (omega arith)
  where
    bounded : (d : ℕ) → d < 16 → is_plain (digit d ∷ []) ≡ true
    bounded d h = ground (arith, h)

elim-plain :
    (b : Bool) (s t : Text)
    → is_plain s ≡ true
    → is_plain t ≡ true
    → is_plain (elim b [ true ↦ s | false ↦ t ]) ≡ true
elim-plain true s t h g = h
elim-plain false s t h g = g

digits_from-plain : (fuel n : ℕ) → is_plain (digits_from fuel 16 n) ≡ true
unfolding digits_from
digits_from-plain zero n = digit-plain n
digits_from-plain (suc fuel) n =
    elim-plain (ltb n 16) (digit (n % 16) ∷ [])
      (digits_from fuel 16 (n / 16) ++ digit (n % 16) ∷ []) (digit-plain n)
      (plain-both (digits_from fuel 16 (n / 16)) (digit (n % 16) ∷ [])
        (digits_from-plain fuel (n / 16)) (digit-plain n))

if-plain :
    (b : Bool) (s t : Text)
    → (b ≡ true → is_plain s ≡ true)
    → (b ≡ false → is_plain t ≡ true)
    → is_plain (if b then s else t) ≡ true
if-plain true s t h g = h refl
if-plain false s t h g = g refl

flatten_char-plain : (c : ℕ) → is_plain (flatten_char c) ≡ true
unfolding flatten_char
flatten_char-plain c =
    if-plain (c == 10) _ _ (λ _. refl)
      (λ _.
        if-plain (c == 13) _ _ (λ _. refl)
          (λ _.
            if-plain (c == 9) _ _ (λ _. refl)
              (λ _.
                if-plain (is_control c) _ _
                  (λ _.
                    plain-both (codes "\\u{") (hexadecimal c ++ codes "}") refl
                      (plain-both (hexadecimal c) (codes "}") (digits_from-plain c c) refl))
                  (λ e. ground (arith, e)))))

flatten-plain : (s : Text) → is_plain (flatten s) ≡ true
unfolding flatten
flatten-plain [] = refl
flatten-plain (c ∷ s) =
    plain-both (flatten_char c) (flatten s) (flatten_char-plain c) (flatten-plain s)

take-plain : (n : ℕ) (s : Text) → is_plain s ≡ true → is_plain (take n s) ≡ true
take-plain zero s h = refl
take-plain (suc n) [] h = refl
take-plain (suc n) (c ∷ s) h = ground (arith, h, take-plain n s)

mark_cut-plain :
    (head : Text) (o : Option ℕ) → is_plain head ≡ true → is_plain (mark_cut head o) ≡ true
unfolding mark_cut
mark_cut-plain head none h = h
mark_cut-plain head (some c) h = plain-both head (ellipsis ∷ []) h refl

length-mark_cut : (head : Text) (o : Option ℕ) → length (mark_cut head o) ≤ length head + 1
unfolding mark_cut
length-mark_cut head none = omega arith
length-mark_cut head (some c) = omega (arith, length-append head (ellipsis ∷ []))

-- A cell stays on its line, whatever the value: it has no control character, and at most sixty
-- characters and the mark of a cut.
pub cell-OneLine :
    {F : Type 0} (display : Json F → Text) (value : Json F)
    → (is_plain (cell display value) ≡ true) × (length (cell display value) ≤ max_cell + 1)
unfolding cell truncate
cell-OneLine display value =
    let s = flatten (raw_text display value) in
    (
      mark_cut-plain (take max_cell s) (get_elem? s max_cell)
          (take-plain max_cell s (flatten-plain (raw_text display value))),
      omega
          (arith, length-mark_cut (take max_cell s) (get_elem? s max_cell), length-take max_cell s),
    )
