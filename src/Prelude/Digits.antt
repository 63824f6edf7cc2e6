-- ===== src/Prelude/Digits.antt =====
-- Numbers written out, most significant digit first.
use Prim.Native.Nat.{ℕ, zero, suc, ◌+◌, ◌/◌, ◌%◌}
use mathlib.Core.Bool.{true, false}
use mathlib.Core.List.{[], ◌∷◌, ◌++◌}
use dirsql.Prelude.Tests.{ltb, if◌then◌else◌}
use dirsql.Prelude.Chars.{Text}

-- A digit below 16, in lower case.
abbrev pub digit : ℕ → ℕ
digit d = if ltb d 10 then d + b'0' else d + 87

-- The fuel bounds the number of digits, so a number is enough fuel for itself.
unfoldable pub digits_from : ℕ → ℕ → ℕ → Text
digits_from zero base n = digit (n % base) ∷ []
digits_from (suc fuel) base n = elim (ltb n base) [
  | true ↦ digit (n % base) ∷ []
  | false ↦ digits_from fuel base (n / base) ++ digit (n % base) ∷ []
]

-- `{}` and `{:x}`
abbrev pub decimal : ℕ → Text
decimal n = digits_from n 10 n

abbrev pub hexadecimal : ℕ → Text
hexadecimal n = digits_from n 16 n
