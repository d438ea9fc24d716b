-- ===== src/Orchestrator/Runner/Types.antt =====
-- crates/orchestrator/src/runner.rs and crates/agent-core/src/agent.rs: results of tasks and runs.
use alpha_swarm.Prelude.{ℕ, Text, List, Option, Bool}
use alpha_swarm.Orchestrator.Task.{SubTask}

-- The fields of `AgentResult` that the callers of the runner read.
pub record AgentResult : Type 0 where
  pub applied : Bool
  pub skipped : Bool
  pub run_id : Option Text
  pub attempt : ℕ
  pub escalated_from : Option Text

pub record TaskRunResult : Type 0 where
  pub task : SubTask
  pub agent_result : Option AgentResult
  pub error : Option Text

-- A path and the new content of the file.
abbrev pub ModifiedFile : Type 0
ModifiedFile = Text × Text

pub record PhaseTimings : Type 0 where
  pub rag_ms : ℕ
  pub planning_ms : ℕ
  pub agent_execution_ms : ℕ
  pub quality_gate_ms : ℕ
  pub total_ms : ℕ

pub record SwarmResult : Type 0 where
  pub goal : Text
  pub tasks : List SubTask
  pub results : List TaskRunResult
  pub merged_diff : Option Text
  pub quality_passed : Bool
  pub total_duration_ms : ℕ
  pub modified_files : List ModifiedFile
  pub phase_timings : PhaseTimings
  pub halted : Bool
  pub retrieved_pattern_ids : List Text
