-- ===== src/Workflow/Engine/Execute.antt =====
-- crates/workflow/src/engine.rs, `WorkflowEngine::execute`: crash recovery and resumption before
-- the loop, and the release of the control handle after it.
use alpha_swarm.Prelude.{ℕ, map, Option, none, some, Bool, any, if◌then◌else◌, ok, err}
use alpha_swarm.Orchestrator.Runner.{SwarmResult}
use alpha_swarm.Workflow.State.{WorkflowState, StepState, is_passed, is_running}
use alpha_swarm.Workflow.Model.{WorkflowStep, WorkflowRun, transition}
use alpha_swarm.Workflow.Model.Checkpoint.{reset_passed_steps}
use alpha_swarm.Workflow.Engine.Env.{Env, EngineOutcome, paused}
use alpha_swarm.Workflow.Engine.Loop.{
  Session, Ended, returned, raised, out_of_fuel, empty_result, publish_state, loop,
}

unfoldable pub reset_running : WorkflowStep → WorkflowStep
reset_running s = if is_running s.state then record s { state = StepState.pending } else s

-- `for s in &mut wf.steps { if Running { Pending } }`
unfoldable pub reset_residue : WorkflowRun → WorkflowRun
unfolding reset_running
reset_residue wf = record wf { steps = map reset_running wf.steps }

-- The run to resume and the outputs that its checkpoint reproduces; an incomplete checkpoint is
-- not trusted, and the passed steps run again.
unfoldable pub resume_seed : WorkflowRun → WorkflowRun × Option SwarmResult
unfolding reset_passed_steps
resume_seed wf =
    if any (λ s. is_passed s.state) wf.steps
    then (if wf.checkpoint_complete
        then (wf, some (empty_result wf.goal (map (λ f. (f.path, f.content)) wf.captured_files)))
        else ((reset_passed_steps wf).0, none))
    else (wf, none)

abbrev is_created_or_paused : WorkflowState → Bool
is_created_or_paused WorkflowState.created = Bool.true
is_created_or_paused WorkflowState.paused = Bool.true
is_created_or_paused _ = Bool.false

module _ (env : Env) where
  open env use {World, now, control_resume, drop_control, update_run}

  unfoldable pub to_running : WorkflowRun → World → WorkflowRun × World
  unfolding transition
  to_running wf w =
      let (time, w') = now w in
      if is_created_or_paused wf.state
      then ((transition WorkflowState.running time wf).0, w')
      else (wf, w)

  abbrev pub keeps_control : EngineOutcome → Bool
  keeps_control paused = Bool.true
  keeps_control _ = Bool.false

  abbrev pub release : EngineOutcome → Session World → Session World
  release outcome s =
      if keeps_control outcome then s else record s { world = drop_control s.wf.run_id s.world }

  abbrev pub after_loop : Ended World → Ended World
  after_loop (returned o s) = returned o (release o s)
  after_loop (raised e s) = raised e s
  after_loop (out_of_fuel s) = out_of_fuel s

  unfoldable pub execute : ℕ → WorkflowRun → World → Ended World
  unfolding reset_residue resume_seed to_running loop
  execute fuel wf w =
      let (seeded, seed) = resume_seed (reset_residue wf) in
      let (run, w1) = to_running seeded w in
      let (r, w2) = update_run run w1 in
      let start : Session World = record {
        wf = run;
        aggregate = seed;
        world = control_resume (publish_state env run w2);
      } in
      elim r [
        | err e ↦ raised e (record { wf = run; aggregate = seed; world = w2 })
        | ok _ ↦ after_loop (loop env fuel start)
      ]
