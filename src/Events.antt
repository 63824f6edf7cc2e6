-- ===== src/Events.antt =====
-- packages/rust/src/lib.rs (`Link`, `through_links`, `apply_events` and what they call): the file events
-- of a watch on their way to the tables. A path is its components.
pub mod Links
pub mod Batches
