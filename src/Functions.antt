-- ===== src/Functions.antt =====
-- packages/rust/src/functions.rs: functions whose values a worker process computes.
pub mod Wire
pub mod Worker
