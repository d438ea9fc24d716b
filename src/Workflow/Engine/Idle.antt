-- ===== src/Workflow/Engine/Idle.antt =====
-- The engine never leaves a step in the state `running`: what each operation does to the states.
use alpha_swarm.Prelude.{
  Text, List, [], ◌∷◌, map, filter, any, Bool, false, ◌≡◌, refl, arith, Option, any-append, ◌∙◌,
}
use alpha_swarm.Orchestrator.Task.{SubTask}
use alpha_swarm.Orchestrator.Runner.{TaskRunResult, ModifiedFile, SwarmResult}
use alpha_swarm.Workflow.State.{StepState, is_running}
use alpha_swarm.Workflow.Model.{WorkflowStep, WorkflowRun, update_step, mark_step, from_task}
use alpha_swarm.Workflow.Model.Checkpoint.{absorb_file, absorb_captured}
use alpha_swarm.Workflow.Model.Splice.{splice_replan}
use alpha_swarm.Workflow.Engine.Env.{Env}
use alpha_swarm.Workflow.Engine.Rounds.{
  check_precondition, check_preconditions, check_effect, check_effects, absorb_result,
  absorb_results, absorb_round,
}
use alpha_swarm.Workflow.Engine.Loop.{after_round}
use alpha_swarm.Workflow.Engine.Execute.{reset_running, reset_residue}

-- No step is marked `running`.
abbrev pub IsIdle : List WorkflowStep → Type 0
IsIdle steps = any (λ s. is_running s.state) steps ≡ false

IsIdle-map :
    (f : WorkflowStep → WorkflowStep) (steps : List WorkflowStep)
    → ((s : WorkflowStep) → is_running s.state ≡ false → is_running (f s).state ≡ false)
    → IsIdle steps
    → IsIdle (map f steps)
IsIdle-map f [] keep h = refl
IsIdle-map f (s ∷ ss) keep h = ground (arith, keep s, IsIdle-map f ss keep)

IsIdle-update :
    (id : Text) (f : WorkflowStep → WorkflowStep) (steps : List WorkflowStep)
    → ((s : WorkflowStep) → is_running s.state ≡ false → is_running (f s).state ≡ false)
    → IsIdle steps
    → IsIdle (update_step id f steps)
IsIdle-update id f [] keep h = refl
IsIdle-update id f (s ∷ ss) keep h = ground (arith, keep s, IsIdle-update id f ss keep)

IsIdle-filter :
    (q : WorkflowStep → Bool) (steps : List WorkflowStep) → IsIdle steps → IsIdle (filter q steps)
IsIdle-filter q [] h = refl
IsIdle-filter q (s ∷ ss) h = ground (arith, IsIdle-filter q ss)

pub reset_residue-IsIdle : (wf : WorkflowRun) → IsIdle (reset_residue wf).steps
unfolding reset_residue
reset_residue-IsIdle wf = go wf.steps
  where
    go : (steps : List WorkflowStep) → IsIdle (map reset_running steps)
    go [] = refl
    go (s ∷ ss) = ground (arith, go ss)

module _ (env : Env) where
  pub check_preconditions-IsIdle :
      (w : env.World) (wf : WorkflowRun)
      → IsIdle wf.steps
      → IsIdle (check_preconditions env w wf).steps
  unfolding check_preconditions
  check_preconditions-IsIdle w wf =
      IsIdle-map (check_precondition env w) wf.steps (λ s h. ground arith)

  pub check_effects-IsIdle :
      (ms : List ModifiedFile) (wf : WorkflowRun)
      → IsIdle wf.steps
      → IsIdle (check_effects env ms wf).steps
  unfolding check_effects
  check_effects-IsIdle ms wf =
      IsIdle-map (check_effect env (map (λ m. m.0) ms)) wf.steps (λ s h. ground arith)

pub absorb_round-IsIdle :
    (rs : List TaskRunResult) (wf : WorkflowRun)
    → IsIdle wf.steps
    → IsIdle (absorb_round rs wf).steps
unfolding absorb_round
absorb_round-IsIdle rs wf = go rs wf.steps
  where
    go :
        (rs : List TaskRunResult) (steps : List WorkflowStep)
        → IsIdle steps
        → IsIdle (absorb_results rs steps)
    go [] steps h = h
    go (r ∷ rs) steps h =
        go rs (update_step r.task.id (absorb_result r) steps)
          (IsIdle-update r.task.id (absorb_result r) steps (λ s k. ground arith) h)

-- Absorbing files touches the checkpoint and nothing else.
pub record SameButCheckpoint (a b : WorkflowRun) : Type 0 where
  pub steps : a.steps ≡ b.steps
  pub state : a.state ≡ b.state
  pub attempts : a.replan_attempts ≡ b.replan_attempts

pub absorb_captured-same :
    (ms : List ModifiedFile) (wf : WorkflowRun) → SameButCheckpoint (absorb_captured ms wf) wf
unfolding absorb_captured
absorb_captured-same [] wf = record { steps = refl; state = refl; attempts = refl }
absorb_captured-same ((p, c) ∷ ms) wf =
    let later = absorb_captured-same ms (absorb_file wf (p, c)) in
    record {
      steps = later.steps ∙ ground arith;
      state = later.state ∙ ground arith;
      attempts = later.attempts ∙ ground arith;
    }

module _ (env : Env) where
  pub after_round-IsIdle :
      (round : SwarmResult) (wf : WorkflowRun)
      → IsIdle wf.steps
      → IsIdle (after_round env round wf).steps
  unfolding after_round
  after_round-IsIdle round wf h =
      let same =
        absorb_captured-same round.modified_files
          (check_effects env round.modified_files (absorb_round round.results wf)) in
      rw same.steps (
        check_effects-IsIdle env round.modified_files (absorb_round round.results wf)
          (absorb_round-IsIdle round.results wf h))

  pub after_round_same :
      (round : SwarmResult) (wf : WorkflowRun)
      → ((after_round env round wf).state ≡ wf.state)
        × ((after_round env round wf).replan_attempts ≡ wf.replan_attempts)
  unfolding after_round
  after_round_same round wf =
      let same =
        absorb_captured-same round.modified_files
          (check_effects env round.modified_files (absorb_round round.results wf)) in
      (same.state, same.attempts)

pub mark_step-IsIdle :
    (id : Text) (state : StepState) (error : Option Text) (wf : WorkflowRun)
    → is_running state ≡ false
    → IsIdle wf.steps
    → IsIdle (mark_step id state error wf).steps
unfolding mark_step
mark_step-IsIdle id state error wf k = IsIdle-update id _ wf.steps (λ s h. k)

IsIdle-added :
    (f : SubTask → SubTask) (tasks : List SubTask) → IsIdle (map (λ t. from_task (f t)) tasks)
unfolding from_task
IsIdle-added f [] = refl
IsIdle-added f (t ∷ ts) = IsIdle-added f ts

pub splice_replan-IsIdle :
    (failed now : Text) (tasks : List SubTask) (wf : WorkflowRun)
    → IsIdle wf.steps
    → IsIdle (splice_replan failed tasks now wf).0.steps
unfolding splice_replan
splice_replan-IsIdle failed now tasks wf h =
    rw any-append (rw (IsIdle-filter _ wf.steps h) (IsIdle-added _ tasks))
