-- ===== src/Pipeline.antt =====
-- crates/cuartel-core/src/pipeline.rs: pipelines of stages with dependencies, and their runs.
pub mod Defs
pub mod Exec
pub mod Topo
pub mod Degrees
pub mod Settled
pub mod Relaxed
pub mod Order
pub mod Sources
pub mod Members
pub mod Longest
pub mod Stuck
pub mod Sorted
pub mod Moves
pub mod Runs
pub mod Invariant
pub mod Outcome
pub mod Runnable
mod Tests
