-- ===== src/Workflow/Engine/Outcome.antt =====
-- What an engine session leaves: the run's state agrees with the outcome that is returned, a
-- completed run has every step passed or skipped, and replanning stays within its budget.
use alpha_swarm.Prelude.{
  ℕ, zero, suc, ◌≤◌, ◌<◌, Text, List, [], ◌∷◌, map, any, find, all, true, false, ◌≡◌, refl, sym,
  ◌∙◌, arith, Option, none, some, Bool-cases, inl, inr, Result, ok, err, leb, length,
}
use alpha_swarm.Orchestrator.Task.{SubTask}
use alpha_swarm.Orchestrator.Runner.{SwarmResult}
use alpha_swarm.Orchestrator.Runner.Control.{ControlState, continue, pause, cancel}
use alpha_swarm.Workflow.State.{
  WorkflowState, StepKind, can_transition, quality_gate, is_running, is_pending, is_failed,
  is_passed_or_skipped,
}
use alpha_swarm.Workflow.Model.{
  WorkflowStep, WorkflowRun, max_replan_attempts, transition, mark_step,
}
use alpha_swarm.Workflow.Model.Ready.{
  has_pending, failed_step, all_passed, ready_control_step, ready_agent_tasks,
}
use alpha_swarm.Workflow.Model.Splice.{splice_replan}
use alpha_swarm.Workflow.Engine.Env.{
  Env, EngineOutcome, completed, failed, paused, cancelled, replanned,
}
use alpha_swarm.Workflow.Engine.Rounds.{check_preconditions, run_quality_check, merge_results}
use alpha_swarm.Workflow.Engine.Loop.{
  Session, Next, stop, again, raise, Ended, returned, raised, out_of_fuel, finish, on_replan,
  on_failed, on_control, on_round, dispatch, on_clean, on_continue, pass, loop, checkpoint,
  publish_state, or_default, passed_of, error_of, is_ok, publish_step, publish_steps, or_empty,
  after_round,
}
use alpha_swarm.Workflow.Engine.Idle.{
  IsIdle, check_preconditions-IsIdle, after_round-IsIdle, mark_step-IsIdle, splice_replan-IsIdle,
  after_round_same,
}

-- The run's state that belongs to an outcome.
abbrev pub state_of : EngineOutcome → WorkflowState
state_of (completed _) = WorkflowState.completed
state_of (failed _ _) = WorkflowState.failed
state_of paused = WorkflowState.paused
state_of cancelled = WorkflowState.cancelled

abbrev pub AllPassedIf : EngineOutcome → WorkflowRun → Type 0
AllPassedIf (completed _) wf = all_passed wf ≡ true
AllPassedIf _ wf = Unit

-- The run between two passes of the loop.
pub record IsActive (wf : WorkflowRun) : Type 0 where
  pub state : wf.state ≡ WorkflowState.running
  pub idle : IsIdle wf.steps
  pub budget : wf.replan_attempts ≤ max_replan_attempts

-- The run when the engine returns.
pub record IsSettled (o : EngineOutcome) (wf : WorkflowRun) : Type 0 where
  pub state : wf.state ≡ state_of o
  pub idle : IsIdle wf.steps
  pub budget : wf.replan_attempts ≤ max_replan_attempts
  pub all_passed_if : AllPassedIf o wf

all_passed_of :
    (steps : List WorkflowStep)
    → any (λ s. is_pending s.state) steps ≡ false
    → find (λ s. is_failed s.state) steps ≡ none
    → IsIdle steps
    → all (λ s. is_passed_or_skipped s.state) steps ≡ true
all_passed_of [] p f r = refl
all_passed_of (s ∷ ss) p f r = ground (arith, all_passed_of ss)

transition_legal :
    (to : WorkflowState) (now : Text) (wf : WorkflowRun)
    → wf.state ≡ WorkflowState.running
    → can_transition WorkflowState.running to ≡ true
    → transition to now wf ≡ (record wf { state = to; updated_at = now }, true)
unfolding transition
transition_legal to now wf h legal = ground arith

module _ (env : Env) where
  -- The database accepted the run as it stands, and nothing was done since but to publish its state.
  abbrev pub IsPersisted : Session env.World → Type 0
  IsPersisted s =
      (w : env.World) × ((env.update_run s.wf w).0 ≡ ok tt)
      × (s.world ≡ publish_state env s.wf (env.update_run s.wf w).1)

  abbrev AfterNext : Next → Session env.World → Type 0
  AfterNext (stop o) s = IsSettled o s.wf × IsPersisted s
  AfterNext again s = IsActive s.wf
  AfterNext (raise e) s = Unit

  abbrev After : Next × Session env.World → Type 0
  After r = AfterNext r.0 r.1

  checkpoint-After :
      (s : Session env.World) (k : Session env.World → Next × Session env.World)
      → ((env.update_run s.wf s.world).0 ≡ ok tt
          → After (k (record s { world = (env.update_run s.wf s.world).1 })))
      → After (checkpoint env s k)
  checkpoint-After s k h = go (env.update_run s.wf s.world).0 refl
    where
      w : env.World
      w = (env.update_run s.wf s.world).1

      go :
          (r : Result Text (Unit {0}))
          → (env.update_run s.wf s.world).0 ≡ r
          → After (elim r [
            | ok _ ↦ k (record s { world = w })
            | err e ↦ (raise e, record s { world = w })
          ])
      go (ok _) accepted = h accepted
      go (err e) refused = tt

  -- A state that a running run may go to, with an outcome of that state.
  finish-After :
      (to : WorkflowState) (o : EngineOutcome) (s : Session env.World)
      → can_transition WorkflowState.running to ≡ true
      → state_of o ≡ to
      → AllPassedIf o s.wf
      → IsActive s.wf
      → After (finish env to o s)
  unfolding finish
  finish-After to o s legal same done active =
      let time = (env.now s.world).0 in
      let w = (env.now s.world).1 in
      checkpoint-After (record s { wf = (transition to time s.wf).0; world = w })
        (λ t. (stop o, record t { world = publish_state env t.wf t.world }))
        λ accepted. (
          rw (transition_legal to time s.wf active.state legal) (record {
            state = sym same;
            idle = active.idle;
            budget = active.budget;
            all_passed_if = moved o done;
          }),
          (w, accepted, refl),
        )
    where
      moved :
          (o : EngineOutcome)
          → AllPassedIf o s.wf
          → AllPassedIf o (record s.wf { state = to; updated_at = (env.now s.world).0 })
      moved (completed r) d = d
      moved _ d = tt

  on_replan-After :
      (step : WorkflowStep) (replan : Result Text (List SubTask)) (s : Session env.World)
      → s.wf.replan_attempts < max_replan_attempts
      → IsActive s.wf
      → After (on_replan env step replan s)
  unfolding on_replan
  on_replan-After step (ok (t ∷ ts)) s room active =
      let (time, w) = env.now s.world in
      checkpoint-After (record s { wf = (splice_replan step.id (t ∷ ts) time s.wf).0; world = w })
        (λ u. (
          again,
          record u {
            world =
                env.publish
                  (replanned u.wf.project (or_default u.wf.id) u.wf.run_id step.id (length (t ∷ ts))
                    u.wf.replan_attempts)
                  u.world;
          },
        ))
        λ accepted. record {
          state = active.state;
          idle = splice_replan-IsIdle step.id time (t ∷ ts) s.wf active.idle;
          budget = omega arith;
        }
  on_replan-After step (ok []) s room active =
      finish-After WorkflowState.failed _ s (unfold can_transition in refl) refl tt active
  on_replan-After step (err e) s room active =
      finish-After WorkflowState.failed _ s (unfold can_transition in refl) refl tt active

  on_failed-After :
      (step : WorkflowStep) (s : Session env.World) → IsActive s.wf → After (on_failed env step s)
  unfolding on_failed
  on_failed-After step s active = elim (Bool-cases (leb max_replan_attempts s.wf.replan_attempts)) [
    | inl spent ↦
        rw spent
          (finish-After WorkflowState.failed _ s (unfold can_transition in refl) refl tt active)
    | inr left ↦ rw left (on_replan-After step _ (record s { world = _ }) (ground arith) active)
  ]

  passed_of_idle : (r : Result Text (Unit {0})) → is_running (passed_of r) ≡ false
  passed_of_idle (ok _) = refl
  passed_of_idle (err e) = refl

  on_control-After :
      (id : Text) (kind : StepKind) (s : Session env.World)
      → IsActive s.wf
      → After (on_control env id kind s)
  unfolding on_control
  on_control-After id quality_gate s active =
      let (r, w) = run_quality_check env (map (λ f. f.path) s.wf.captured_files) s.world in
      let wf = mark_step id (passed_of r) (error_of r) s.wf in
      checkpoint-After (record s { wf = wf; world = publish_step env wf id (is_ok r) w })
        (λ u. (again, u))
        λ accepted. record {
          state = active.state;
          idle = mark_step-IsIdle id (passed_of r) (error_of r) s.wf (passed_of_idle r) active.idle;
          budget = active.budget;
        }
  on_control-After id _ s active =
      finish-After WorkflowState.paused paused s (unfold can_transition in refl) refl tt active

  on_round-After :
      (r : Result Text SwarmResult) (s : Session env.World)
      → IsActive s.wf
      → After (on_round env r s)
  unfolding on_round
  on_round-After (err e) s active = tt
  on_round-After (ok round) s active =
      checkpoint-After (record s { wf = after_round env round s.wf })
        (λ u. (
          again,
          record u {
            aggregate = some (merge_results u.aggregate round);
            world = publish_steps env u.wf round.results u.world;
          },
        ))
        λ accepted. record {
          state = (after_round_same env round s.wf).0 ∙ active.state;
          idle = after_round-IsIdle env round s.wf active.idle;
          budget = rw ((after_round_same env round s.wf).1) active.budget;
        }

  dispatch-After :
      (tasks : List SubTask) (s : Session env.World) → IsActive s.wf → After (dispatch env tasks s)
  unfolding dispatch
  dispatch-After [] s active =
      finish-After WorkflowState.failed _ s (unfold can_transition in refl) refl tt active
  dispatch-After (t ∷ ts) s active =
      let (r, w) = env.run_planned s.wf.goal (t ∷ ts) s.world in
      on_round-After r (record s { world = w }) active

  on_clean-After :
      (s : Session env.World) → failed_step s.wf ≡ none → IsActive s.wf → After (on_clean env s)
  unfolding on_clean
  on_clean-After s clean active = elim (Bool-cases (has_pending s.wf)) [
    | inl more ↦ rw more (next (ready_control_step s.wf))
    | inr none_left ↦ rw none_left (
        finish-After WorkflowState.completed (completed (or_empty s.wf.goal s.aggregate)) s
          (unfold can_transition in refl) refl
          (all_passed_of s.wf.steps none_left clean active.idle) active)
  ]
    where
      next :
          (c : Option (Text × StepKind))
          → After (elim c [
            | some (id, kind) ↦ on_control env id kind s
            | none ↦ dispatch env (ready_agent_tasks s.wf) s
          ])
      next none = dispatch-After (ready_agent_tasks s.wf) s active
      next (some (id, kind)) = on_control-After id kind s active

  on_continue-After : (s : Session env.World) → IsActive s.wf → After (on_continue env s)
  unfolding on_continue
  on_continue-After s active = next (failed_step t.wf) refl
    where
      t : Session env.World
      t = record s { wf = check_preconditions env s.world s.wf }

      checked : IsActive t.wf
      checked = record {
        state = active.state;
        idle = check_preconditions-IsIdle env s.world s.wf active.idle;
        budget = active.budget;
      }

      next :
          (f : Option WorkflowStep)
          → failed_step t.wf ≡ f
          → After (elim f [ some step ↦ on_failed env step t | none ↦ on_clean env t ])
      next none e = on_clean-After t e checked
      next (some step) e = on_failed-After step t checked

  pass-After : (s : Session env.World) → IsActive s.wf → After (pass env s)
  unfolding pass
  pass-After s active = next (env.control_state s.world).0
    where
      t : Session env.World
      t = record s { world = (env.control_state s.world).1 }

      next :
          (c : ControlState)
          → After (elim c [
            | pause ↦ finish env WorkflowState.paused paused t
            | cancel ↦ finish env WorkflowState.cancelled cancelled t
            | continue ↦ on_continue env t
          ])
      next pause =
          finish-After WorkflowState.paused paused t (unfold can_transition in refl) refl tt active
      next cancel =
          finish-After WorkflowState.cancelled cancelled t (unfold can_transition in refl) refl tt
            active
      next continue = on_continue-After t active

  abbrev pub AfterLoop : Ended env.World → Type 0
  AfterLoop (returned o s) = IsSettled o s.wf × IsPersisted s
  AfterLoop (raised e s) = Unit
  AfterLoop (out_of_fuel s) = IsActive s.wf

  pub loop-AfterLoop :
      (fuel : ℕ) (s : Session env.World) → IsActive s.wf → AfterLoop (loop env fuel s)
  unfolding loop
  loop-AfterLoop zero s active = active
  loop-AfterLoop (suc fuel) s active =
      next (λ t h. loop-AfterLoop fuel t h) (pass env s).0 (pass env s).1 (pass-After s active)
    where
      next :
          ((t : Session env.World) → IsActive t.wf → AfterLoop (loop env fuel t))
          → (n : Next) (t : Session env.World) → AfterNext n t
          → AfterLoop
              (elim n [ stop o ↦ returned o t | raise e ↦ raised e t | again ↦ loop env fuel t ])
      next later (stop o) t h = h
      next later (raise e) t h = tt
      next later again t h = later t h
