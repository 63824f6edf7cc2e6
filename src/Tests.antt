-- ===== src/Tests.antt =====
-- Runs of the model on small inputs, and its theorems at them.
mod Rows
mod Sql
mod Json
mod Glob
mod Vtab
mod Events
mod Listing
mod Apply
mod Functions
mod Commands
