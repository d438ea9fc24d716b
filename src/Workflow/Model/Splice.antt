-- ===== src/Workflow/Model/Splice.antt =====
-- crates/workflow/src/model.rs, `splice_replan`: a failed step and all that depends on it are
-- replaced by the tasks of a replan.
pub mod Closure
pub mod Survivors
use alpha_swarm.Prelude.{
  ℕ, zero, suc, Text, text, List, [], ◌∷◌, ◌++◌, map, Bool, not, any, filter, count, contains,
  length, nat_eq, if◌then◌else◌, decimal, add_one_u32,
}
use alpha_swarm.Orchestrator.Task.{SubTask}
use alpha_swarm.Workflow.Model.Types.{WorkflowStep, WorkflowRun, from_task}

abbrev pub replan_step_id_prefix : Text
replan_step_id_prefix = text "r"

-- `doomed.insert(id)`
abbrev pub insert : Text → List Text → List Text
insert id doomed = if contains doomed id then doomed else id ∷ doomed

abbrev pub depends_on_any : List Text → WorkflowStep → Bool
depends_on_any doomed s = any (λ d. contains doomed d) s.task.depends_on

-- One pass of the `for` loop: a step that is inserted counts for the steps behind it.
unfoldable pub sweep : List WorkflowStep → List Text → List Text
sweep [] doomed = doomed
sweep (s ∷ ss) doomed = sweep ss (if depends_on_any doomed s then insert s.id doomed else doomed)

-- `loop { …; if doomed.len() == before { break } }`. That the fuel of `doomed_ids` reaches the
-- `break` is proved in `Closure`.
unfoldable pub grow : ℕ → List WorkflowStep → List Text → List Text
unfolding sweep
grow zero steps doomed = doomed
grow (suc fuel) steps doomed =
    let next = sweep steps doomed in
    let rest = grow fuel steps next in if nat_eq (length next) (length doomed) then next else rest

unfoldable pub doomed_ids : Text → List WorkflowStep → List Text
unfolding grow
doomed_ids failed_id steps = grow (suc (length steps)) steps (failed_id ∷ [])

abbrev pub round_prefix : ℕ → Text
round_prefix round = replan_step_id_prefix ++ (decimal round ++ text "-")

abbrev is_nonempty : Text → Bool
is_nonempty [] = Bool.false
is_nonempty (b ∷ bs) = Bool.true

-- A new dependency: renamed if it names a new task, dropped if it names a removed step.
unfoldable pub rename_deps : Text → List Text → List Text → List Text → List Text
rename_deps prefix new_ids doomed deps = filter is_nonempty (
    map (λ d. if contains new_ids d then prefix ++ d else if contains doomed d then [] else d) deps)

unfoldable pub rename_task : Text → List Text → List Text → SubTask → SubTask
unfolding rename_deps
rename_task prefix new_ids doomed t = record t {
  id = prefix ++ t.id;
  depends_on = rename_deps prefix new_ids doomed t.depends_on;
}

-- The spliced run, and how many steps were removed.
unfoldable pub splice_replan : Text → List SubTask → Text → WorkflowRun → WorkflowRun × ℕ
unfolding doomed_ids rename_task from_task
splice_replan failed_id new_tasks now wf =
    let doomed = doomed_ids failed_id wf.steps in
    let kept = filter (λ s. not (contains doomed s.id)) wf.steps in
    let round = add_one_u32 wf.replan_attempts in
    let new_ids = map (λ t. t.id) new_tasks in
    let added =
      map (λ t. from_task (rename_task (round_prefix round) new_ids doomed t)) new_tasks in
    (
      record wf { steps = kept ++ added; replan_attempts = round; updated_at = now },
      count (λ s. contains doomed s.id) wf.steps,
    )
