-- ===== src/Workflow/Engine/Settles.antt =====
-- `execute` from any run that has not ended: what holds when it returns.
use alpha_swarm.Prelude.{◌≤◌, List, [], ◌∷◌, map, false, ◌≡◌, refl, sym, ◌∙◌, subst, arith}
use alpha_swarm.Workflow.State.{WorkflowState, is_terminal}
use alpha_swarm.Workflow.Model.{WorkflowStep, WorkflowRun, max_replan_attempts}
use alpha_swarm.Workflow.Model.Checkpoint.{reset_passed, reset_passed_steps}
use alpha_swarm.Workflow.Engine.Env.{Env, EngineOutcome}
use alpha_swarm.Workflow.Engine.Loop.{Session, Ended, returned, raised, out_of_fuel, publish_state}
use alpha_swarm.Workflow.Engine.Execute.{reset_residue, resume_seed, to_running, release}
use alpha_swarm.Workflow.Engine.Idle.{IsIdle, reset_residue-IsIdle}
use alpha_swarm.Workflow.Engine.Outcome.{IsActive, IsSettled, IsPersisted}

reset_residue_same :
    (wf : WorkflowRun)
    → ((reset_residue wf).state ≡ wf.state)
      × ((reset_residue wf).replan_attempts ≡ wf.replan_attempts)
unfolding reset_residue
reset_residue_same wf = (refl, refl)

reset_passed_steps-IsIdle :
    (wf : WorkflowRun) → IsIdle wf.steps → IsIdle (reset_passed_steps wf).0.steps
unfolding reset_passed_steps
reset_passed_steps-IsIdle wf = go wf.steps
  where
    go : (steps : List WorkflowStep) → IsIdle steps → IsIdle (map reset_passed steps)
    go [] h = refl
    go (s ∷ ss) h = ground (arith, go ss)

-- Resumption changes step states and the checkpoint, and leaves no step running.
resume_seed-IsIdle : (wf : WorkflowRun) → IsIdle wf.steps → IsIdle (resume_seed wf).0.steps
unfolding resume_seed
resume_seed-IsIdle wf h = ground (arith, reset_passed_steps-IsIdle wf)

resume_seed_same :
    (wf : WorkflowRun)
    → ((resume_seed wf).0.state ≡ wf.state)
      × ((resume_seed wf).0.replan_attempts ≡ wf.replan_attempts)
unfolding resume_seed
resume_seed_same wf = ground arith

module _ (env : Env) where
  to_running_state :
      (wf : WorkflowRun) (w : env.World)
      → is_terminal wf.state ≡ false
      → ((to_running env wf w).0.state ≡ WorkflowState.running)
        × ((to_running env wf w).0.steps ≡ wf.steps)
        × ((to_running env wf w).0.replan_attempts ≡ wf.replan_attempts)
  unfolding to_running is_terminal
  to_running_state wf w h = ground arith

  abbrev start_run : WorkflowRun → env.World → WorkflowRun
  start_run wf w = (to_running env (resume_seed (reset_residue wf)).0 w).0

  pub start-IsActive :
      (wf : WorkflowRun) (w : env.World)
      → is_terminal wf.state ≡ false
      → wf.replan_attempts ≤ max_replan_attempts
      → IsActive (start_run wf w)
  start-IsActive wf w live room =
      let r = reset_residue wf in
      let same = resume_seed_same r in
      let residue = reset_residue_same wf in
      let t =
        to_running_state (resume_seed r).0 w
          (subst (λ x. is_terminal x ≡ false) (sym (same.0 ∙ residue.0)) live) in
      record {
        state = t.0;
        idle = rw t.1 (resume_seed-IsIdle r (reset_residue-IsIdle wf));
        budget = rw (t.2 ∙ same.1 ∙ residue.1) room;
      }

  abbrev start_world : WorkflowRun → env.World → env.World
  start_world wf w = env.control_resume (
      publish_state env (start_run wf w)
        (env.update_run (start_run wf w) (to_running env (resume_seed (reset_residue wf)).0 w).1).1)

  abbrev start : WorkflowRun → env.World → Session env.World
  start wf w = record {
    wf = start_run wf w;
    aggregate = (resume_seed (reset_residue wf)).1;
    world = start_world wf w;
  }

  -- The run was persisted, and nothing was done since but to release its control handle.
  abbrev pub IsReleased : EngineOutcome → Session env.World → Type 0
  IsReleased o s = (t : Session env.World) × IsPersisted env t × (s ≡ release env o t)

  abbrev AfterExecute : Ended env.World → Type 0
  AfterExecute (returned o s) = IsSettled o s.wf × IsReleased o s
  AfterExecute (raised e s) = Unit
  AfterExecute (out_of_fuel s) = IsActive s.wf
