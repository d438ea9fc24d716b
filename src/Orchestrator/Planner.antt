-- ===== src/Orchestrator/Planner.antt =====
-- crates/orchestrator/src/planner_types.rs: from a model's answer to a plan of sub-tasks.
pub mod Env
pub mod Cycle
pub mod Paths
pub mod Parse
pub mod Scope
mod Samples
mod Witnesses
