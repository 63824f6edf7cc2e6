-- ===== src/GlobUnescape/Quoting.antt =====
-- packages/rust/src/glob_unescape.rs: quoted text reads as the text.
use dirsql.Prelude.{ℕ, Bool, ◌≡◌, refl, [], ◌∷◌, ◌++◌, Text, ◌==◌, if◌then◌else◌, arith}
use dirsql.GlobUnescape.{unescape_from, unescape}

-- `s` with a backslash before each character of which `quoted` holds, and before each backslash.
abbrev pub quote_chars : (ℕ → Bool) → Text → Text
quote_chars quoted [] = []
quote_chars quoted (c ∷ s) =
    (if c == b'\\' then b'\\' ∷ c ∷ [] else if quoted c then b'\\' ∷ c ∷ [] else c ∷ [])
    ++ quote_chars quoted s

-- Text reads as itself however it was quoted: with a backslash before each of its backslashes, and
-- before any of its other characters.
pub unescape-quote_chars : (quoted : ℕ → Bool) (s : Text) → unescape (quote_chars quoted s) ≡ s
unfolding unescape unescape_from
unescape-quote_chars quoted [] = refl
unescape-quote_chars quoted (c ∷ s) = ground (arith, unescape-quote_chars quoted s)
