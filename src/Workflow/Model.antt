-- ===== src/Workflow/Model.antt =====
-- crates/workflow/src/model.rs: the workflow document and its pure operations. Checkpoints and
-- replanning stand in the children of those names.
mod Types
pub mod Ready
pub mod Checkpoint
pub mod Splice
pub use Types.*
unfoldable pub use Types.{
  from_task, from_tasks, instantiate, with_trailing_quality_gate, transition, mark_step,
}
