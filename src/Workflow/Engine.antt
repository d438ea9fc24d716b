-- ===== src/Workflow/Engine.antt =====
-- crates/workflow/src/engine.rs: the engine that drives a persisted run. `Env` is what it calls,
-- `Rounds` folds results into the run, and `Loop` is `execute`.
pub mod Env
pub mod Rounds
pub mod Loop
pub mod Execute
pub mod Idle
pub mod Outcome
pub mod Settles
