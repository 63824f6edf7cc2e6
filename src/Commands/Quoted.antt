-- ===== src/Commands/Quoted.antt =====
-- packages/rust/src/command.rs (`quote_windows_arg`): the quoted form is read back.
use dirsql.Prelude.{
  ℕ, zero, suc, ◌+◌, ◌*◌, ◌≡◌, refl, sym, ap, ◌∙◌, inl, inr, Bool, true, false, Option, none, some,
  List, [], ◌∷◌, ◌++◌, append_assoc, append-nil, ◌==◌, ==_iff, if◌then◌else◌, arith, Bool-cases,
}
use dirsql.Commands.{quote_mark, backslash, slashes, quote_from, quote_windows_arg}

-- How the C runtime reads a command line inside quotes, after an even or odd number of backslashes: the
-- backslashes before a quote are halved, after an odd number the quote is a character, and after an even
-- number it ends the argument, unless another quote follows, which is then a character.
abbrev pub half : ℕ → ℕ × Bool
half zero = (0, false)
half (suc zero) = (0, true)
half (suc (suc n)) = (suc (half n).0, (half n).1)

abbrev pub prepend : List ℕ → Option (List ℕ × List ℕ) → Option (List ℕ × List ℕ)
prepend bytes none = none
prepend bytes (some (arg, rest)) = some (bytes ++ arg, rest)

abbrev pub starts_quoted : List ℕ → Bool
starts_quoted [] = false
starts_quoted (byte ∷ rest) = byte == quote_mark

unfoldable pub read_quoted : ℕ → List ℕ → Option (List ℕ × List ℕ)
read_quoted n [] = none
read_quoted n (byte ∷ line) =
    let more = read_quoted (suc n) line in
    let rest = read_quoted 0 line in
    if byte == backslash
    then more
    else if byte == quote_mark
    then if (half n).1
      then prepend (slashes (half n).0 ++ quote_mark ∷ []) rest
      else if starts_quoted line
      then prepend (slashes (half n).0) rest
      else some (slashes (half n).0, line)
    else prepend (slashes n ++ byte ∷ []) rest

twice : (n : ℕ) → suc n * 2 ≡ suc (suc (n * 2))
twice n = omega arith

shift : (n : ℕ) → suc (suc n) + 1 ≡ suc (suc (n + 1))
shift n = omega arith

half-even : (n : ℕ) → half (n * 2) ≡ (n, false)
half-even zero = refl
half-even (suc n) = ap half (twice n) ∙ ap (λ (h : ℕ × Bool). (suc h.0, h.1)) (half-even n)

half-odd : (n : ℕ) → half (n * 2 + 1) ≡ (n, true)
half-odd zero = refl
half-odd (suc n) =
    ap half (ap (λ m. m + 1) (twice n) ∙ shift (n * 2))
    ∙ ap (λ (h : ℕ × Bool). (suc h.0, h.1)) (half-odd n)

read-slashes :
    (k n : ℕ) (line : List ℕ) → read_quoted n (slashes k ++ line) ≡ read_quoted (n + k) line
unfolding read_quoted
read-slashes zero n line = ap (λ m. read_quoted m line) (omega arith)
read-slashes (suc k) n line =
    read-slashes k (suc n) line ∙ ap (λ m. read_quoted m line) (omega arith)

slashes-more : (n : ℕ) (s : List ℕ) → slashes (suc n) ++ s ≡ slashes n ++ backslash ∷ s
slashes-more zero s = refl
slashes-more (suc n) s = ap (λ l. backslash ∷ l) (slashes-more n s)

read-end :
    (m n : ℕ) (rest : List ℕ)
    → half m ≡ (n, false)
    → starts_quoted rest ≡ false
    → read_quoted m (quote_mark ∷ rest) ≡ some (slashes n, rest)
unfolding read_quoted
read-end m n rest e h =
    ap
      (λ (x : ℕ × Bool).
        if x.1
        then prepend (slashes x.0 ++ quote_mark ∷ []) (read_quoted 0 rest)
        else if starts_quoted rest
        then prepend (slashes x.0) (read_quoted 0 rest)
        else some (slashes x.0, rest))
      e
    ∙ ap (λ c. if c then prepend (slashes n) (read_quoted 0 rest) else some (slashes n, rest)) h

read-literal :
    (m n : ℕ) (line : List ℕ)
    → half m ≡ (n, true)
    → read_quoted m (quote_mark ∷ line)
      ≡ prepend (slashes n ++ quote_mark ∷ []) (read_quoted 0 line)
unfolding read_quoted
read-literal m n line e =
    ap
      (λ (x : ℕ × Bool).
        if x.1
        then prepend (slashes x.0 ++ quote_mark ∷ []) (read_quoted 0 line)
        else if starts_quoted line
        then prepend (slashes x.0) (read_quoted 0 line)
        else some (slashes x.0, line))
      e

read-other :
    (m byte : ℕ) (line : List ℕ)
    → (byte == backslash) ≡ false
    → (byte == quote_mark) ≡ false
    → read_quoted m (byte ∷ line) ≡ prepend (slashes m ++ byte ∷ []) (read_quoted 0 line)
unfolding read_quoted
read-other m byte line e f = rw (e, f) refl

join : (n byte : ℕ) (arg : List ℕ) → (slashes n ++ byte ∷ []) ++ arg ≡ slashes n ++ byte ∷ arg
join n byte arg = append_assoc (slashes n) (byte ∷ []) arg

quote-more :
    (k byte : ℕ) (tail rest : List ℕ)
    → read_quoted 0 ((slashes k ++ byte ∷ tail) ++ rest) ≡ read_quoted k (byte ∷ (tail ++ rest))
quote-more k byte tail rest =
    ap (read_quoted 0) (append_assoc (slashes k) (byte ∷ tail) rest)
    ∙ read-slashes k 0 (byte ∷ (tail ++ rest))
    ∙ ap (λ m. read_quoted m (byte ∷ (tail ++ rest))) (omega arith)

-- What is quoted is read to its end, whatever follows it.
read-quote_from :
    (n : ℕ) (arg rest : List ℕ)
    → starts_quoted rest ≡ false
    → read_quoted 0 (quote_from n arg ++ rest) ≡ some (slashes n ++ arg, rest)
unfolding quote_from
read-quote_from n [] rest h =
    quote-more (n * 2) quote_mark [] rest
    ∙ read-end (n * 2) n rest (half-even n) h
    ∙ ap (λ l. some (l, rest)) (sym (append-nil (slashes n)))
read-quote_from n (byte ∷ arg) rest h =
    let later = read-quote_from 0 arg rest h in
    elim (Bool-cases (byte == backslash)) [
      | inl slash ↦
          rw slash (read-quote_from (suc n) arg rest h)
          ∙ ap (λ l. some (l, rest))
              (slashes-more n arg
                ∙ ap (λ c. slashes n ++ c ∷ arg) (sym ((==_iff byte backslash).0 slash)))
      | inr plain ↦ elim (Bool-cases (byte == quote_mark)) [
        | inl mark ↦
            rw (plain, mark)
              (quote-more (n * 2 + 1) quote_mark (quote_from 0 arg) rest
                ∙ read-literal (n * 2 + 1) n (quote_from 0 arg ++ rest) (half-odd n)
                ∙ ap (prepend (slashes n ++ quote_mark ∷ [])) later
                ∙ ap (λ l. some (l, rest))
                    (join n quote_mark arg
                      ∙ ap (λ c. slashes n ++ c ∷ arg) (sym ((==_iff byte quote_mark).0 mark))))
        | inr other ↦
            rw (plain, other)
              (quote-more n byte (quote_from 0 arg) rest
                ∙ read-other n byte (quote_from 0 arg ++ rest) plain other
                ∙ ap (prepend (slashes n ++ byte ∷ [])) later
                ∙ ap (λ l. some (l, rest)) (join n byte arg))
      ]
    ]

unfoldable pub read_arg : List ℕ → Option (List ℕ × List ℕ)
unfolding read_quoted
read_arg [] = none
read_arg (byte ∷ line) = if byte == quote_mark then read_quoted 0 line else none

-- The C runtime reads a quoted argument back as it was, up to its end, where what follows does not
-- start with a quote.
pub read_arg-quote_windows_arg :
    (arg rest : List ℕ)
    → starts_quoted rest ≡ false
    → read_arg (quote_windows_arg arg ++ rest) ≡ some (arg, rest)
unfolding quote_windows_arg read_arg
read_arg-quote_windows_arg arg rest h = read-quote_from 0 arg rest h
