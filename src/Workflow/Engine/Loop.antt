-- ===== src/Workflow/Engine/Loop.antt =====
-- crates/workflow/src/engine.rs, `WorkflowEngine::execute`: one pass of its loop, the loop on fuel,
-- and what comes before and after it.
use alpha_swarm.Prelude.{
  ℕ, zero, suc, Text, text, List, [], ◌∷◌, ◌++◌, map, Option, none, some, Bool, true, false, count,
  filter, leb, if◌then◌else◌, length, decimal, join, Result, ok, err,
}
use alpha_swarm.Orchestrator.Task.{SubTask}
use alpha_swarm.Orchestrator.Runner.{SwarmResult, TaskRunResult}
use alpha_swarm.Orchestrator.Runner.Control.{continue, pause, cancel}
use alpha_swarm.Workflow.State.{
  WorkflowState, StepState, StepKind, quality_gate, is_pending, is_passed,
}
use alpha_swarm.Workflow.Model.{
  WorkflowStep, WorkflowRun, max_replan_attempts, transition, mark_step,
}
use alpha_swarm.Workflow.Model.Ready.{
  has_pending, ready_control_step, ready_agent_tasks, failed_step,
}
use alpha_swarm.Workflow.Model.Checkpoint.{absorb_captured}
use alpha_swarm.Workflow.Model.Splice.{splice_replan}
use alpha_swarm.Workflow.Engine.Env.{
  Env, state_changed, step_done, replanned, EngineOutcome, completed, failed, paused, cancelled,
  ReplanRequest,
}
use alpha_swarm.Workflow.Engine.Rounds.{
  run_quality_check, check_preconditions, check_effects, absorb_round, merge_results,
}

abbrev pub or_default : Option Text → Text
or_default none = []
or_default (some t) = t

abbrev pub empty_result : Text → List (Text × Text) → SwarmResult
empty_result goal files = record {
  goal = goal;
  tasks = [];
  results = [];
  merged_diff = none;
  quality_passed = true;
  total_duration_ms = 0;
  modified_files = files;
  phase_timings = record {
    rag_ms = 0;
    planning_ms = 0;
    agent_execution_ms = 0;
    quality_gate_ms = 0;
    total_ms = 0;
  };
  halted = false;
  retrieved_pattern_ids = [];
}

-- The variables of `execute` that its loop changes.
pub record Session (World : Type 0) : Type 0 where
  pub wf : WorkflowRun
  pub aggregate : Option SwarmResult
  pub world : World

-- How a pass of the loop ends: `break`, the next pass, or an error that `?` returns.
pub data Next : Type 0 where
  stop : EngineOutcome → Next
  again : Next
  raise : Text → Next

pub data Ended (World : Type 0) : Type 0 where
  returned : EngineOutcome → Session World → Ended World
  raised : Text → Session World → Ended World
  out_of_fuel : Session World → Ended World

abbrev pub completed_summary : WorkflowRun → Text
completed_summary wf = join (10 ∷ []) (
    map (λ s. text "- " ++ (s.id ++ (text ": " ++ s.task.description)))
      (filter (λ s. is_passed s.state) wf.steps))

abbrev pub files_modified : Option SwarmResult → List Text
files_modified none = []
files_modified (some a) = map (λ m. m.0) a.modified_files

abbrev pub or_unknown : Option Text → Text
or_unknown none = text "unknown error"
or_unknown (some t) = t

abbrev pub passed_of : Result Text (Unit {0}) → StepState
passed_of (ok _) = StepState.passed
passed_of (err _) = StepState.failed

abbrev pub error_of {ℓ} : {A : Type ℓ} → Result Text A → Option Text
error_of (ok _) = none
error_of (err e) = some e

abbrev pub is_ok {ℓ} : {A : Type ℓ} → Result Text A → Bool
is_ok (ok _) = true
is_ok (err _) = false

abbrev pub or_empty : Text → Option SwarmResult → SwarmResult
or_empty goal none = empty_result goal []
or_empty goal (some r) = r

module _ (env : Env) where
  open env use {
    World, now, control_state, control_resume, drop_control, update_run, publish, replan_goal,
    run_planned,
  }

  abbrev pub publish_state : WorkflowRun → World → World
  publish_state wf = publish (state_changed wf.project (or_default wf.id) wf.run_id wf.state)

  abbrev pub publish_step : WorkflowRun → Text → Bool → World → World
  publish_step wf id passed = publish (step_done wf.project (or_default wf.id) wf.run_id id passed)

  -- `self.repo.update_run(wf).await?`, and then `k` with the world that it left.
  abbrev pub checkpoint :
      Session World → (Session World → Next × Session World) → Next × Session World
  checkpoint s k =
      let (r, w) = update_run s.wf s.world in
      elim r [ ok _ ↦ k (record s { world = w }) | err e ↦ (raise e, record s { world = w }) ]

  -- Transition, checkpoint, publish, break.
  unfoldable pub finish : WorkflowState → EngineOutcome → Session World → Next × Session World
  unfolding transition
  finish to outcome s =
      let (time, w) = now s.world in
      checkpoint (record s { wf = (transition to time s.wf).0; world = w })
        λ t. (stop outcome, record t { world = publish_state t.wf t.world })

  -- A replan with tasks is spliced in; an empty or invalid one fails the run.
  unfoldable pub on_replan :
      WorkflowStep → Result Text (List SubTask) → Session World → Next × Session World
  unfolding finish splice_replan
  on_replan step (ok (t ∷ ts)) s =
      let (time, w) = now s.world in
      checkpoint (record s { wf = (splice_replan step.id (t ∷ ts) time s.wf).0; world = w })
        λ u. (
          again,
          record u {
            world =
                publish
                  (replanned u.wf.project (or_default u.wf.id) u.wf.run_id step.id (length (t ∷ ts))
                    u.wf.replan_attempts)
                  u.world;
          },
        )
  on_replan step (ok []) s =
      finish WorkflowState.failed
        (failed s.aggregate
          (text "Replan returned no tasks after step '" ++ (step.id ++ text "' failed")))
        s
  on_replan step (err e) s =
      finish WorkflowState.failed (failed s.aggregate (text "Replan aborted: " ++ e)) s

  unfoldable pub on_failed : WorkflowStep → Session World → Next × Session World
  unfolding finish on_replan
  on_failed step s =
      let request : ReplanRequest = record {
        goal = s.wf.goal;
        completed_summary = completed_summary s.wf;
        failed_step_desc = step.task.description;
        failed_error = or_default step.error;
        files_modified = files_modified s.aggregate;
      } in
      let (replan, w) = replan_goal request s.world in
      if leb max_replan_attempts s.wf.replan_attempts
      then finish WorkflowState.failed
          (failed s.aggregate (
            text "Step '"
            ++ (step.id
                ++ (text "' failed and replan budget ("
                    ++ (decimal max_replan_attempts
                        ++ (text ") exhausted: " ++ or_unknown step.error))))))
          s
      else on_replan step replan (record s { world = w })

  unfoldable pub on_control : Text → StepKind → Session World → Next × Session World
  unfolding finish run_quality_check mark_step
  on_control id quality_gate s =
      let (r, w) = run_quality_check env (map (λ f. f.path) s.wf.captured_files) s.world in
      let wf = mark_step id (passed_of r) (error_of r) s.wf in
      checkpoint (record s { wf = wf; world = publish_step wf id (is_ok r) w }) λ u. (again, u)
  -- `ready_control_step` gives no agent task: the source has `unreachable!` there.
  on_control id kind s = finish WorkflowState.paused paused s

  abbrev pub publish_steps : WorkflowRun → List TaskRunResult → World → World
  publish_steps wf [] w = w
  publish_steps wf (r ∷ rs) w =
      publish_steps wf rs
        (publish_step wf r.task.id (elim r.error [ none ↦ true | some e ↦ false ]) w)

  -- The run after a round: its results, the effects that it owed, and its captured files.
  unfoldable pub after_round : SwarmResult → WorkflowRun → WorkflowRun
  unfolding absorb_round check_effects absorb_captured
  after_round round wf =
      absorb_captured round.modified_files
        (check_effects env round.modified_files (absorb_round round.results wf))

  unfoldable pub on_round : Result Text SwarmResult → Session World → Next × Session World
  unfolding after_round merge_results
  on_round (err e) s = (raise e, s)
  on_round (ok round) s =
      checkpoint (record s { wf = after_round round s.wf })
        λ u. (
          again,
          record u {
            aggregate = some (merge_results u.aggregate round);
            world = publish_steps u.wf round.results u.world;
          },
        )

  unfoldable pub dispatch : List SubTask → Session World → Next × Session World
  unfolding finish on_round
  dispatch [] s =
      finish WorkflowState.failed
        (failed s.aggregate (
          text "Workflow stuck: "
          ++ (decimal (count (λ t. is_pending t.state) s.wf.steps)
              ++ text " pending steps, none ready (dependency cycle?)")))
        s
  dispatch (t ∷ ts) s =
      let (r, w) = run_planned s.wf.goal (t ∷ ts) s.world in on_round r (record s { world = w })

  -- No step has failed: the run is complete, or a control step or a round is next.
  unfoldable pub on_clean : Session World → Next × Session World
  unfolding finish on_control dispatch ready_control_step ready_agent_tasks
  on_clean s =
      if has_pending s.wf
      then elim (ready_control_step s.wf) [
        | some (id, kind) ↦ on_control id kind s
        | none ↦ dispatch (ready_agent_tasks s.wf) s
      ]
      else finish WorkflowState.completed (completed (or_empty s.wf.goal s.aggregate)) s

  unfoldable pub on_continue : Session World → Next × Session World
  unfolding check_preconditions on_failed on_clean
  on_continue s =
      let t = record s { wf = check_preconditions env s.world s.wf } in
      elim (failed_step t.wf) [ some step ↦ on_failed step t | none ↦ on_clean t ]

  -- One pass of the loop.
  unfoldable pub pass : Session World → Next × Session World
  unfolding finish on_continue
  pass s =
      let (c, w) = control_state s.world in
      let t = record s { world = w } in
      elim c [
        | pause ↦ finish WorkflowState.paused paused t
        | cancel ↦ finish WorkflowState.cancelled cancelled t
        | continue ↦ on_continue t
      ]

  unfoldable pub loop : ℕ → Session World → Ended World
  unfolding pass
  loop zero s = out_of_fuel s
  loop (suc fuel) s =
      let (next, t) = pass s in
      elim next [ stop o ↦ returned o t | raise e ↦ raised e t | again ↦ loop fuel t ]
