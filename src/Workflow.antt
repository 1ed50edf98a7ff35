-- ===== src/Workflow.antt =====
-- crates/cuartel-core/src/workflow.rs: durable workflows, a list of steps run one after another.
-- `V` is the type of a step's output (`serde_json::Value`, which the code only stores). A
-- `DateTime<Utc>` is a number; each `Utc::now()` is an argument of its own. `attempts` is a u32 and
-- wraps; the step index is a usize that never passes the number of steps.
pub mod Defs
pub mod Exec
pub mod Layout
pub mod Invariant
pub mod Runs
pub mod Retries
pub mod Progress
mod Tests
