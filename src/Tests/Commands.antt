-- ===== src/Tests/Commands.antt =====
-- Command lines and the jobs of files, on small inputs.
use mathlib.Core.List.{flatten}
use dirsql.Prelude.{ℕ, ◌≡◌, refl, some, false, List, [], ◌∷◌, ◌++◌, map, codes, arith}
use dirsql.Commands.{Placeholder, quote_windows_arg, substitute}
use dirsql.Commands.Quoted.{read_arg, read_arg-quote_windows_arg}
use dirsql.Commands.Pieces.{written, filled, names_of, pieces_from, substitute-pieces}
use dirsql.OnFile.{Arg, dispatch}
use dirsql.OnFile.Jobs.{Dispatched, dispatch-Dispatched}

read_arg-quote_windows_arg_example :
    read_arg (quote_windows_arg (codes "a\\\"b\\") ++ codes " c")
    ≡ some (codes "a\\\"b\\", codes " c")
read_arg-quote_windows_arg_example = read_arg-quote_windows_arg (codes "a\\\"b\\") (codes " c") refl

abbrev placeholders : List Placeholder
placeholders =
    record { name = codes "root"; value = codes "{path}" }
    ∷ record { name = codes "path"; value = codes "x" }
    ∷ []

substituted : substitute (codes "{root}/{path}{no") placeholders ≡ codes "{path}/x{no"
unfolding substitute
substituted = refl

substitute-pieces_example :
    (flatten (map written (pieces_from 0 (codes "{root}/{path}") (names_of placeholders)))
      ≡ codes "{root}/{path}")
    × (substitute (codes "{root}/{path}") placeholders
        ≡ flatten (
            map
              (filled placeholders)
              (pieces_from 0 (codes "{root}/{path}") (names_of placeholders))))
substitute-pieces_example = substitute-pieces (codes "{root}/{path}") placeholders

abbrev paths : List (Arg × ℕ)
paths = (codes "a", 5000000) ∷ (codes "bb", 9000000) ∷ (codes "ccccccccc", 10) ∷ []

dispatch-Dispatched_example : Dispatched false 6 4 paths (dispatch false 6 4 paths)
dispatch-Dispatched_example = dispatch-Dispatched false 6 4 paths (omega arith)
