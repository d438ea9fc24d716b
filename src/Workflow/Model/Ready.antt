-- ===== src/Workflow/Model/Ready.antt =====
-- crates/workflow/src/model.rs: which steps are ready, and the questions that the engine asks.
pub mod Dispatch
use alpha_swarm.Prelude.{
  Text, List, map, Option, some, none, Bool, not, ◌&&◌, any, all, find, filter, contains,
}
use alpha_swarm.Orchestrator.Task.{SubTask}
use alpha_swarm.Workflow.State.{
  StepKind, is_pending, is_passed, is_failed, is_passed_or_skipped, is_control,
}
use alpha_swarm.Workflow.Model.Types.{WorkflowStep, WorkflowRun, step_ids}

unfoldable pub is_ready : List Text → WorkflowStep → Bool
is_ready completed s = is_pending s.state && all (λ d. contains completed d) s.task.depends_on

unfoldable pub completed_ids : WorkflowRun → List Text
completed_ids wf = step_ids (filter (λ s. is_passed s.state) wf.steps)

unfoldable pub ready_steps : WorkflowRun → List WorkflowStep
unfolding is_ready completed_ids
ready_steps wf = filter (is_ready (completed_ids wf)) wf.steps

abbrev pub has_pending : WorkflowRun → Bool
has_pending wf = any (λ s. is_pending s.state) wf.steps

unfoldable pub ready_control_step : WorkflowRun → Option (Text × StepKind)
unfolding is_ready completed_ids
ready_control_step wf =
    elim (find (λ s. is_ready (completed_ids wf) s && is_control s.kind) wf.steps) [
      | some s ↦ some (s.id, s.kind)
      | none ↦ none
    ]

abbrev pub is_ready_agent : List Text → WorkflowStep → Bool
is_ready_agent completed s = is_ready completed s && not (is_control s.kind)

unfoldable pub ready_agent_tasks : WorkflowRun → List SubTask
unfolding is_ready completed_ids
ready_agent_tasks wf = map (λ s. s.task) (filter (is_ready_agent (completed_ids wf)) wf.steps)

abbrev pub failed_step : WorkflowRun → Option WorkflowStep
failed_step wf = find (λ s. is_failed s.state) wf.steps

abbrev pub all_passed : WorkflowRun → Bool
all_passed wf = all (λ s. is_passed_or_skipped s.state) wf.steps
