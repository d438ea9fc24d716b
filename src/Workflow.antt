-- ===== src/Workflow.antt =====
-- crates/workflow: persisted workflow runs (`Model`) and the engine that drives them (`Engine`).
pub mod State
pub mod Model
pub mod Engine
mod Samples
mod Witnesses
