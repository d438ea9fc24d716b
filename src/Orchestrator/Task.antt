-- ===== src/Orchestrator/Task.antt =====
-- crates/orchestrator/src/planner_types.rs: the sub-tasks that planner, runner and workflow share.
use alpha_swarm.Prelude.{Text, List, Option}

pub data Complexity : Type 0 where
  simple medium complex : Complexity

pub record DirectEdit : Type 0 where
  pub path : Text
  pub old : Text
  pub new : Text

pub record SubTask : Type 0 where
  pub id : Text
  pub description : Text
  pub files : List Text
  pub complexity : Complexity
  pub depends_on : List Text
  pub edit : Option DirectEdit
  pub template : Option Text
