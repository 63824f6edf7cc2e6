-- ===== src/VtabScaffold.antt =====
-- packages/rust/src/vtab_scaffold.rs: the virtual tables' plans and cursors. `Plan` is what a table
-- offers SQLite's planner, `Lookup` finds rows by key, `Cursor` is the cursor's state machine.
pub mod Plan
pub mod Lookup
pub mod Cursor
