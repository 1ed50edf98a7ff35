-- ===== src/Grid.antt =====
-- The terminal of crates/cuartel-terminal/src/grid.rs: a screen of cells with a scrollback behind
-- it, which the calls of an escape-sequence parser change.
pub mod Defs
pub mod Style
pub mod Perform
pub mod Bounds
pub mod Safety
pub mod Edits
pub mod Runs
pub mod Content
mod Tests
