-- ===== src/GlobUnescape.antt =====
-- packages/rust/src/glob_unescape.rs: a glob's literal text as bash reads it.
pub mod Quoting
use dirsql.Prelude.{ℕ, Bool, true, false, not, ◌||◌, List, [], ◌∷◌, Text, ◌==◌, if◌then◌else◌}

-- The loop, with its variable `escaped`, and what follows the loop.
pub unescape_from : Bool → Text → Text
unescape_from escaped [] = if escaped then b'\\' ∷ [] else []
unescape_from escaped (c ∷ s) =
    let kept = unescape_from false s in
    let skipped = unescape_from true s in if escaped || not (c == b'\\') then c ∷ kept else skipped

pub unescape : Text → Text
unfolding unescape_from
unescape s = unescape_from false s
