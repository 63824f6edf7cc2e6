-- ===== src/Brace.antt =====
-- packages/rust/src/brace.rs: bash's brace expansion of a path glob. A pattern is a list of code
-- points. `Expand` finds and expands the groups, `Sequence` reads a `..` range, `Steps` counts
-- through it, and `Escape` quotes the braces that are left.
pub mod Steps
pub mod Sequence
pub mod Escape
pub mod Expand
