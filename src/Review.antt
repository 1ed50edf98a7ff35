-- ===== src/Review.antt =====
-- Accepting and rejecting the hunks of a diff: crates/cuartel-core/src/review.rs, on the diffs of
-- crates/cuartel-core/src/overlay.rs.
pub mod Defs
pub mod Plan
pub mod Counts
pub mod Mix
pub mod Text
pub mod Apply
mod Tests
