-- ===== src/Orchestrator/Runner.antt =====
-- crates/orchestrator/src/runner.rs: what a swarm run returns. The children model the pause and
-- cancel flag (`Control`) and the dependency waves of disk mode (`Waves`).
mod Types
pub mod Control
pub mod Waves
pub use Types.*
