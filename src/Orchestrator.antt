-- ===== src/Orchestrator.antt =====
-- crates/orchestrator: the planner's tasks and the swarm runner.
pub mod Task
pub mod Graph
pub mod Planner
pub mod Runner
mod Witnesses
