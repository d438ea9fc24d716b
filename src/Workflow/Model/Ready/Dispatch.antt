-- ===== src/Workflow/Model/Ready/Dispatch.antt =====
-- Which tasks a round dispatches.
use alpha_swarm.Prelude.{
  Text, text_eq, text_eq_iff, List, [], ◌∷◌, true, false, not, all, filter, contains, ◌≡◌, refl,
  arith, In, here, there, In-map, In-filter, Bool-cases, inl, inr, both_of,
}
use alpha_swarm.Orchestrator.Task.{SubTask}
use alpha_swarm.Workflow.State.{is_pending, is_passed, is_control}
use alpha_swarm.Workflow.Model.Types.{WorkflowStep, WorkflowRun, step_ids}
use alpha_swarm.Workflow.Model.Ready.{is_ready, completed_ids, is_ready_agent, ready_agent_tasks}

In-step_ids :
    (ss : List WorkflowStep) (d : Text)
    → contains (step_ids ss) d ≡ true
    → (u : WorkflowStep) × In u ss × (u.id ≡ d)
In-step_ids [] d h = cc
In-step_ids (s ∷ ss) d h = elim (Bool-cases (text_eq s.id d)) [
  | inl same ↦ (s, here refl, (text_eq_iff s.id d).0 same)
  | inr other ↦ let (u, m, e) = In-step_ids ss d (rw other at h) in (u, there m, e)
]

contains_of_all :
    (ids deps : List Text) (d : Text)
    → all (λ e. contains ids e) deps ≡ true
    → In d deps
    → contains ids d ≡ true
contains_of_all ids [] d h m = elim m [ ]
contains_of_all ids (e ∷ deps) d h (here same) =
    rw same ((both_of (contains ids e) (all (λ e. contains ids e) deps) h).0)
contains_of_all ids (e ∷ deps) d h (there m) =
    contains_of_all ids deps d (both_of (contains ids e) (all (λ e. contains ids e) deps) h).1 m

-- The step is an agent step that waits, and each of its dependencies is a step that has passed.
pub record IsDue (wf : WorkflowRun) (s : WorkflowStep) : Type 0 where
  pub listed : In s wf.steps
  pub pending : is_pending s.state ≡ true
  pub agent : is_control s.kind ≡ false
  pub met :
      (d : Text)
      → In d s.task.depends_on
      → (u : WorkflowStep) × In u wf.steps × (is_passed u.state ≡ true) × (u.id ≡ d)

-- Each task that a round dispatches is that of a pending agent step, and each of its dependencies
-- is the id of a step that has passed; a skipped step does not count.
pub ready_agent_tasks_lem :
    (wf : WorkflowRun) (t : SubTask)
    → In t (ready_agent_tasks wf)
    → (s : WorkflowStep) × IsDue wf s × (t ≡ s.task)
unfolding ready_agent_tasks is_ready completed_ids
ready_agent_tasks_lem wf t m =
    let (s, found, is_t) =
      In-map (λ s. s.task) t (filter (is_ready_agent (completed_ids wf)) wf.steps) m in
    let (listed, due) = In-filter (is_ready_agent (completed_ids wf)) s wf.steps found in
    let (ready, agent) = both_of (is_ready (completed_ids wf) s) (not (is_control s.kind)) due in
    let (pending, deps) =
      both_of (is_pending s.state) (all (λ d. contains (completed_ids wf) d) s.task.depends_on)
        ready in
    (
      s,
      record {
        listed = listed;
        pending = pending;
        agent = ground arith;
        met = λ d n.
            let (u, there_is, is_d) =
              In-step_ids (filter (λ s. is_passed s.state) wf.steps) d
                (contains_of_all (completed_ids wf) s.task.depends_on d deps n) in
            let (in_run, passed) = In-filter (λ s. is_passed s.state) u wf.steps there_is in
            (u, in_run, passed, is_d);
      },
      is_t,
    )
