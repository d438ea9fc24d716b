-- ===== src/Workflow/Model/Types.antt =====
-- crates/workflow/src/model.rs: the document, how runs are made, and its smallest updates.
use alpha_swarm.Prelude.{
  ℕ, Text, text, text_eq, List, [], ◌∷◌, ◌++◌, map, Option, none, some, Bool, true, false, ◌||◌,
  if◌then◌else◌, any, add_one_u32,
}
use alpha_swarm.Orchestrator.Task.{SubTask, Complexity}
use alpha_swarm.Workflow.State.{
  WorkflowState, StepState, StepKind, Condition, can_transition, agent_task, quality_gate,
  is_quality_gate, file_exists, files_changed,
}

abbrev pub workflow_schema_version : ℕ
workflow_schema_version = 1

abbrev pub max_replan_attempts : ℕ
max_replan_attempts = 3

abbrev pub default_step_max_attempts : ℕ
default_step_max_attempts = 2

pub record WorkflowStep : Type 0 where
  pub id : Text
  pub kind : StepKind
  pub task : SubTask
  pub state : StepState
  pub attempts : ℕ
  pub max_attempts : ℕ
  pub preconditions : List Condition
  pub effects : List Condition
  pub error : Option Text
  pub agent_run_id : Option Text

unfoldable pub from_task : SubTask → WorkflowStep
from_task t = record {
  id = t.id;
  kind = agent_task;
  task = t;
  state = StepState.pending;
  attempts = 0;
  max_attempts = default_step_max_attempts;
  preconditions = [];
  effects = [];
  error = none;
  agent_run_id = none;
}

pub record WorkflowDef : Type 0 where
  pub id : Option Text
  pub name : Text
  pub version : ℕ
  pub description : Text
  pub steps : List WorkflowStep
  pub schema_version : ℕ
  pub created_at : Text

pub record CapturedFile : Type 0 where
  pub path : Text
  pub content : Text

pub record WorkflowRun : Type 0 where
  pub id : Option Text
  pub def_name : Option Text
  pub def_version : Option ℕ
  pub project : Text
  pub goal : Text
  pub run_id : Text
  pub state : WorkflowState
  pub steps : List WorkflowStep
  pub replan_attempts : ℕ
  pub schema_version : ℕ
  pub created_at : Text
  pub updated_at : Text
  pub captured_files : List CapturedFile
  pub checkpoint_complete : Bool

-- `step.task.template.as_deref().unwrap_or("")` is `edit` or `refactor`
abbrev edits_existing : Option Text → Bool
edits_existing none = false
edits_existing (some t) = text_eq t (text "edit") || text_eq t (text "refactor")

abbrev is_empty : List Text → Bool
is_empty [] = true
is_empty (x ∷ xs) = false

-- What `instantiate` does to one template step.
instantiate_step : List Text → WorkflowStep → WorkflowStep
instantiate_step files step = record step {
  task = record step.task { files = files };
  state = StepState.pending;
  attempts = 0;
  error = none;
  agent_run_id = none;
  preconditions =
      if edits_existing step.task.template then map file_exists files else step.preconditions;
  effects = if is_empty files then step.effects else files_changed files ∷ [];
}

unfoldable pub instantiate : WorkflowDef → Text → Text → Text → List Text → Text → WorkflowRun
unfolding instantiate_step
instantiate def project goal run_id files now = record {
  id = none;
  def_name = some def.name;
  def_version = some def.version;
  project = project;
  goal = goal;
  run_id = run_id;
  state = WorkflowState.created;
  steps = map (instantiate_step files) def.steps;
  replan_attempts = 0;
  schema_version = workflow_schema_version;
  created_at = now;
  updated_at = now;
  captured_files = [];
  checkpoint_complete = true;
}

unfoldable pub from_tasks : Text → Text → Text → List SubTask → Text → WorkflowRun
unfolding from_task
from_tasks project goal run_id tasks now = record {
  id = none;
  def_name = none;
  def_version = none;
  project = project;
  goal = goal;
  run_id = run_id;
  state = WorkflowState.created;
  steps = map from_task tasks;
  replan_attempts = 0;
  schema_version = workflow_schema_version;
  created_at = now;
  updated_at = now;
  captured_files = [];
  checkpoint_complete = true;
}

abbrev pub step_ids : List WorkflowStep → List Text
step_ids steps = map (λ s. s.id) steps

abbrev pub quality_gate_id : Text
quality_gate_id = text "quality-gate"

quality_gate_step : List Text → WorkflowStep
quality_gate_step deps = record {
  id = quality_gate_id;
  kind = quality_gate;
  task = record {
    id = quality_gate_id;
    description = text "Run build/test quality gate";
    files = [];
    complexity = Complexity.simple;
    depends_on = deps;
    edit = none;
    template = none;
  };
  state = StepState.pending;
  attempts = 0;
  max_attempts = default_step_max_attempts;
  preconditions = [];
  effects = [];
  error = none;
  agent_run_id = none;
}

-- `self.steps.iter().any(|s| s.kind == QualityGate) || self.steps.is_empty()`
abbrev gate_not_wanted : List WorkflowStep → Bool
gate_not_wanted [] = true
gate_not_wanted (s ∷ ss) = any (λ t. is_quality_gate t.kind) (s ∷ ss)

unfoldable pub with_trailing_quality_gate : WorkflowRun → WorkflowRun
unfolding quality_gate_step
with_trailing_quality_gate wf =
    if gate_not_wanted wf.steps
    then wf
    else record wf { steps = wf.steps ++ quality_gate_step (step_ids wf.steps) ∷ [] }

-- The new run, and whether the transition was legal.
unfoldable pub transition : WorkflowState → Text → WorkflowRun → WorkflowRun × Bool
unfolding can_transition
transition to now wf =
    if can_transition wf.state to
    then (record wf { state = to; updated_at = now }, true)
    else (wf, false)

-- `iter_mut().find(..)`: the first step with the id is updated, the others are left alone.
abbrev pub update_step :
    Text → (WorkflowStep → WorkflowStep) → List WorkflowStep → List WorkflowStep
update_step id f [] = []
update_step id f (s ∷ ss) = if text_eq s.id id then f s ∷ ss else s ∷ update_step id f ss

unfoldable pub mark_step : Text → StepState → Option Text → WorkflowRun → WorkflowRun
mark_step id state error wf = record wf {
  steps =
      update_step id
        (λ s. record s { state = state; attempts = add_one_u32 s.attempts; error = error })
        wf.steps;
}
