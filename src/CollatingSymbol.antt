-- ===== src/CollatingSymbol.antt =====
-- packages/rust/src/collating_symbol.rs: the named collating symbols of a bracket.
pub mod Named
use dirsql.Prelude.{ℕ, Option, none, some, List, [], ◌∷◌, Text, codes, text_eq, if◌then◌else◌}

abbrev pub names : List (Text × ℕ)
names =
    (codes "NUL", 0)
    ∷ (codes "SOH", 1)
    ∷ (codes "STX", 2)
    ∷ (codes "ETX", 3)
    ∷ (codes "EOT", 4)
    ∷ (codes "ENQ", 5)
    ∷ (codes "ACK", 6)
    ∷ (codes "alert", 7)
    ∷ (codes "BS", 8)
    ∷ (codes "backspace", 8)
    ∷ (codes "HT", 9)
    ∷ (codes "tab", 9)
    ∷ (codes "LF", 10)
    ∷ (codes "newline", 10)
    ∷ (codes "VT", 11)
    ∷ (codes "vertical-tab", 11)
    ∷ (codes "FF", 12)
    ∷ (codes "form-feed", 12)
    ∷ (codes "CR", 13)
    ∷ (codes "carriage-return", 13)
    ∷ (codes "SO", 14)
    ∷ (codes "SI", 15)
    ∷ (codes "DLE", 16)
    ∷ (codes "DC1", 17)
    ∷ (codes "DC2", 18)
    ∷ (codes "DC3", 19)
    ∷ (codes "DC4", 20)
    ∷ (codes "NAK", 21)
    ∷ (codes "SYN", 22)
    ∷ (codes "ETB", 23)
    ∷ (codes "CAN", 24)
    ∷ (codes "EM", 25)
    ∷ (codes "SUB", 26)
    ∷ (codes "ESC", 27)
    ∷ (codes "IS4", 28)
    ∷ (codes "FS", 28)
    ∷ (codes "IS3", 29)
    ∷ (codes "GS", 29)
    ∷ (codes "IS2", 30)
    ∷ (codes "RS", 30)
    ∷ (codes "IS1", 31)
    ∷ (codes "US", 31)
    ∷ (codes "space", 32)
    ∷ (codes "exclamation-mark", 33)
    ∷ (codes "quotation-mark", 34)
    ∷ (codes "number-sign", 35)
    ∷ (codes "dollar-sign", 36)
    ∷ (codes "percent-sign", 37)
    ∷ (codes "ampersand", 38)
    ∷ (codes "apostrophe", 39)
    ∷ (codes "left-parenthesis", 40)
    ∷ (codes "right-parenthesis", 41)
    ∷ (codes "asterisk", 42)
    ∷ (codes "plus-sign", 43)
    ∷ (codes "comma", 44)
    ∷ (codes "hyphen", 45)
    ∷ (codes "hyphen-minus", 45)
    ∷ (codes "minus", 45)
    ∷ (codes "dash", 45)
    ∷ (codes "period", 46)
    ∷ (codes "full-stop", 46)
    ∷ (codes "slash", 47)
    ∷ (codes "solidus", 47)
    ∷ (codes "zero", 48)
    ∷ (codes "one", 49)
    ∷ (codes "two", 50)
    ∷ (codes "three", 51)
    ∷ (codes "four", 52)
    ∷ (codes "five", 53)
    ∷ (codes "six", 54)
    ∷ (codes "seven", 55)
    ∷ (codes "eight", 56)
    ∷ (codes "nine", 57)
    ∷ (codes "colon", 58)
    ∷ (codes "semicolon", 59)
    ∷ (codes "less-than-sign", 60)
    ∷ (codes "equals-sign", 61)
    ∷ (codes "greater-than-sign", 62)
    ∷ (codes "question-mark", 63)
    ∷ (codes "commercial-at", 64)
    ∷ (codes "left-square-bracket", 91)
    ∷ (codes "backslash", 92)
    ∷ (codes "reverse-solidus", 92)
    ∷ (codes "right-square-bracket", 93)
    ∷ (codes "circumflex", 94)
    ∷ (codes "circumflex-accent", 94)
    ∷ (codes "underscore", 95)
    ∷ (codes "grave-accent", 96)
    ∷ (codes "left-brace", 123)
    ∷ (codes "left-curly-bracket", 123)
    ∷ (codes "vertical-line", 124)
    ∷ (codes "right-brace", 125)
    ∷ (codes "right-curly-bracket", 125)
    ∷ (codes "tilde", 126)
    ∷ (codes "DEL", 127)
    ∷ []

lookup_name : Text → List (Text × ℕ) → Option ℕ
lookup_name name [] = none
lookup_name name ((known, c) ∷ entries) =
    if text_eq known name then some c else lookup_name name entries

-- The `match` behind the table.
single : Text → Option ℕ
single (c ∷ []) = some c
single _ = none

or_single : Text → Option ℕ → Option ℕ
unfolding single
or_single name none = single name
or_single name (some c) = some c

unfoldable pub collating_symbol : Text → Option ℕ
unfolding lookup_name or_single
collating_symbol name = or_single name (lookup_name name names)
