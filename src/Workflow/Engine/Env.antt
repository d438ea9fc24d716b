-- ===== src/Workflow/Engine/Env.antt =====
-- crates/workflow/src/engine.rs: what the engine calls outside itself, as operations on a world.
-- The database, the event bus, the file system, the planner's model and the swarm runner are
-- behind this interface; each call may change the world and sees what earlier calls did.
use alpha_swarm.Prelude.{ℕ, Text, List, Option, Bool, Result}
use alpha_swarm.Orchestrator.Task.{SubTask}
use alpha_swarm.Orchestrator.Runner.{SwarmResult}
use alpha_swarm.Orchestrator.Runner.Control.{ControlState}
use alpha_swarm.Workflow.State.{WorkflowState, Condition}
use alpha_swarm.Workflow.Model.{WorkflowRun}

-- The events that the engine publishes, less their timestamps.
pub data Event : Type 0 where
  state_changed : (project workflow_id run_id : Text) (state : WorkflowState) → Event
  step_done : (project workflow_id run_id step_id : Text) (passed : Bool) → Event
  replanned :
      (project workflow_id run_id failed_step_id : Text) (new_step_count replan_attempt : ℕ) → Event

-- `Command::output()`: it ran and succeeded, ran and failed, or could not run.
pub data CommandOutput : Type 0 where
  succeeded : CommandOutput
  exited : (stderr : Text) → CommandOutput
  not_started : (error : Text) → CommandOutput

pub record ReplanRequest : Type 0 where
  pub goal : Text
  pub completed_summary : Text
  pub failed_step_desc : Text
  pub failed_error : Text
  pub files_modified : List Text

pub record Env : Type 1 where
  pub World : Type 0
  pub now : World → Text × World
  -- `RunControl::state`, which other threads write at any time
  pub control_state : World → ControlState × World
  pub control_resume : World → World
  pub drop_control : Text → World → World
  pub update_run : WorkflowRun → World → Result Text (Unit {0}) × World
  pub publish : Event → World → World
  -- a path below the repository's root
  pub path_exists : Text → World → Bool
  pub run_command : Text → List Text → World → CommandOutput × World
  pub replan_goal : ReplanRequest → World → Result Text (List SubTask) × World
  pub run_planned : Text → List SubTask → World → Result Text SwarmResult × World
  -- the derived `Debug` text of a condition
  pub debug_condition : Condition → Text

pub data EngineOutcome : Type 0 where
  completed : SwarmResult → EngineOutcome
  failed : Option SwarmResult → Text → EngineOutcome
  paused cancelled : EngineOutcome
