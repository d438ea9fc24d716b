-- ===== src/Workflow/State.antt =====
-- crates/workflow/src/model.rs: the states of a run and of a step, and the kinds of step.
pub mod Transitions
use alpha_swarm.Prelude.{Text, List, Bool, true, false}

pub data WorkflowState : Type 0 where
  created running paused completed cancelled failed : WorkflowState

unfoldable pub can_transition : WorkflowState → WorkflowState → Bool
can_transition created running = true
can_transition created cancelled = true
can_transition running paused = true
can_transition running completed = true
can_transition running cancelled = true
can_transition running failed = true
can_transition paused running = true
can_transition paused cancelled = true
can_transition _ _ = false

unfoldable pub is_terminal : WorkflowState → Bool
is_terminal completed = true
is_terminal cancelled = true
is_terminal failed = true
is_terminal _ = false

pub data StepState : Type 0 where
  pending running passed failed skipped : StepState

pub data StepKind : Type 0 where
  agent_task human_approval quality_gate : StepKind

abbrev pub is_control : StepKind → Bool
is_control human_approval = true
is_control quality_gate = true
is_control agent_task = false

pub data Condition : Type 0 where
  file_exists : (path : Text) → Condition
  files_changed : (paths : List Text) → Condition

-- `self.state == StepState::Pending`, and so for the other states.
abbrev pub is_pending : StepState → Bool
is_pending StepState.pending = true
is_pending _ = false

abbrev pub is_running : StepState → Bool
is_running StepState.running = true
is_running _ = false

abbrev pub is_passed : StepState → Bool
is_passed StepState.passed = true
is_passed _ = false

abbrev pub is_failed : StepState → Bool
is_failed StepState.failed = true
is_failed _ = false

abbrev pub is_passed_or_skipped : StepState → Bool
is_passed_or_skipped StepState.passed = true
is_passed_or_skipped StepState.skipped = true
is_passed_or_skipped _ = false

abbrev pub is_quality_gate : StepKind → Bool
is_quality_gate quality_gate = true
is_quality_gate _ = false
