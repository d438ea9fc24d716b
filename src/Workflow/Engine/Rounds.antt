-- ===== src/Workflow/Engine/Rounds.antt =====
-- crates/workflow/src/engine.rs: conditions, the quality check, and what a round's results do to
-- the run.
use alpha_swarm.Prelude.{
  ◌+◌, ◌%◌, ◌^◌, Text, text, List, [], ◌∷◌, ◌++◌, map, Option, none, some, Bool, true, not, any,
  find, contains, if◌then◌else◌, take, ends_with, lines, join, add_one_u32, Result, ok, err,
}
use mathlib.Core.List.{reverse}
use alpha_swarm.Orchestrator.Runner.{AgentResult, TaskRunResult, SwarmResult, ModifiedFile}
use alpha_swarm.Workflow.State.{
  StepState, Condition, file_exists, files_changed, is_pending, is_passed,
}
use alpha_swarm.Workflow.Model.{WorkflowStep, WorkflowRun, update_step}
use alpha_swarm.Workflow.Engine.Env.{Env, CommandOutput, succeeded, exited, not_started}

abbrev code_extensions : List Text
code_extensions = text ".rs" ∷ text ".ts" ∷ text ".js" ∷ text ".go" ∷ text ".py" ∷ []

unfoldable pub has_code : List Text → Bool
has_code changed = any (λ f. any (λ e. ends_with f e) code_extensions) changed

-- The last five lines of the output, the last line first.
abbrev tail_of : Text → Text
tail_of stderr = join (text " | ") (take 5 (reverse (lines stderr)))

abbrev check_result : Text → CommandOutput → Result Text (Unit {0})
check_result program succeeded = ok tt
check_result program (exited stderr) = err (program ++ (text " check failed: " ++ tail_of stderr))
check_result program (not_started e) = err (program ++ (text " check could not run: " ++ e))

module _ (env : Env) where
  open env use {World, path_exists, run_command, debug_condition}

  unfoldable pub run_quality_check : List Text → World → Result Text (Unit {0}) × World
  unfolding has_code
  run_quality_check changed w =
      if not (has_code changed)
      then (ok tt, w)
      else if path_exists (text "Cargo.toml") w
      then (let (out, w') = run_command (text "cargo") (text "check" ∷ text "--quiet" ∷ []) w in
          (check_result (text "cargo") out, w'))
      else if path_exists (text "package.json") w
      then (let (out, w') = run_command (text "pnpm") (text "check" ∷ []) w in
          (check_result (text "pnpm") out, w'))
      else (ok tt, w)

  abbrev precondition_holds : World → Condition → Bool
  precondition_holds w (file_exists path) = path_exists path w
  precondition_holds w (files_changed paths) = true

  -- A pending step with an unmet precondition fails, with the first one in its error.
  unfoldable pub check_precondition : World → WorkflowStep → WorkflowStep
  check_precondition w s =
      if is_pending s.state
      then elim (find (λ c. not (precondition_holds w c)) s.preconditions) [
        | none ↦ s
        | some c ↦ record s {
          state = StepState.failed;
          error = some (text "Precondition unmet: " ++ debug_condition c);
        }
      ]
      else s

  unfoldable pub check_preconditions : World → WorkflowRun → WorkflowRun
  unfolding check_precondition
  check_preconditions w wf = record wf { steps = map (check_precondition w) wf.steps }

  abbrev effect_holds : List Text → Condition → Bool
  effect_holds changed (file_exists path) = contains changed path
  effect_holds changed (files_changed paths) = any (λ p. contains changed p) paths

  -- A passed step with an unmet effect is demoted, with the first one in its error.
  unfoldable pub check_effect : List Text → WorkflowStep → WorkflowStep
  check_effect changed s =
      if is_passed s.state
      then elim (find (λ c. not (effect_holds changed c)) s.effects) [
        | none ↦ s
        | some c ↦ record s {
          state = StepState.failed;
          error = some (text "Effect unmet: " ++ debug_condition c);
        }
      ]
      else s

  unfoldable pub check_effects : List ModifiedFile → WorkflowRun → WorkflowRun
  unfolding check_effect
  check_effects modified wf = record wf {
    steps = map (check_effect (map (λ m. m.0) modified)) wf.steps;
  }

-- `match (&r.agent_result, &r.error)`
abbrev absorb_match : Option AgentResult → Option Text → WorkflowStep → WorkflowStep
absorb_match (some a) error s =
    if a.applied
    then record s { state = StepState.passed; error = none; agent_run_id = a.run_id }
    else elim error [
      | none ↦ record s { state = StepState.skipped }
      | some e ↦ record s { state = StepState.failed; error = some e }
    ]
absorb_match none (some e) s = record s { state = StepState.failed; error = some e }
absorb_match none none s = s

unfoldable pub absorb_result : TaskRunResult → WorkflowStep → WorkflowStep
absorb_result r s =
    absorb_match r.agent_result r.error (record s { attempts = add_one_u32 s.attempts })

-- The steps after the results, each folded into the first step that has its task's id.
unfoldable pub absorb_results : List TaskRunResult → List WorkflowStep → List WorkflowStep
unfolding absorb_result
absorb_results [] steps = steps
absorb_results (r ∷ rs) steps = absorb_results rs (update_step r.task.id (absorb_result r) steps)

unfoldable pub absorb_round : List TaskRunResult → WorkflowRun → WorkflowRun
unfolding absorb_results
absorb_round results wf = record wf { steps = absorb_results results wf.steps }

abbrev merge_diff : Option Text → Option Text → Option Text
merge_diff existing none = existing
merge_diff none (some d) = some d
merge_diff (some existing) (some d) = some (existing ++ (10 ∷ d))

unfoldable pub merge_results : Option SwarmResult → SwarmResult → SwarmResult
merge_results none round = round
merge_results (some acc) round = record acc {
  results = acc.results ++ round.results;
  tasks = acc.tasks ++ round.tasks;
  modified_files = acc.modified_files ++ round.modified_files;
  merged_diff = merge_diff acc.merged_diff round.merged_diff;
  quality_passed = round.quality_passed;
  total_duration_ms = (acc.total_duration_ms + round.total_duration_ms) % 2 ^ 64;
  halted = round.halted;
  retrieved_pattern_ids = acc.retrieved_pattern_ids ++ round.retrieved_pattern_ids;
}
