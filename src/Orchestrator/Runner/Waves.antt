-- ===== src/Orchestrator/Runner/Waves.antt =====
-- crates/orchestrator/src/runner.rs, `execute_tasks` in disk mode: tasks run in waves, each wave
-- the tasks whose dependencies are already in `completed`. What an agent does with one task is a
-- parameter; a wave's agents run in parallel, and each writes only its own key of `completed`.
pub mod Outside
use alpha_swarm.Prelude.{
  ℕ, zero, suc, ◌+◌, Text, text_eq, contains, List, [], ◌∷◌, map, Option, none, some, Bool, true,
  false, not, ◌&&◌, ltb, if◌then◌else◌, length, filter, all, take, find, Result, ok, err,
}
use alpha_swarm.Orchestrator.Task.{SubTask}
use alpha_swarm.Orchestrator.Runner.Types.{AgentResult, TaskRunResult}
use alpha_swarm.Orchestrator.Runner.Control.{ControlState, continue}

-- The `completed` map: a key is inserted once and replaced after that.
abbrev pub Completed : Type 0
Completed = List TaskRunResult

abbrev pub ids : List SubTask → List Text
ids tasks = map (λ t. t.id) tasks

abbrev pub done_ids : Completed → List Text
done_ids completed = map (λ r. r.task.id) completed

-- `completed.insert(result.task.id.clone(), result)`
unfoldable pub insert_result : TaskRunResult → Completed → Completed
insert_result r [] = r ∷ []
insert_result r (q ∷ rest) =
    if text_eq q.task.id r.task.id then r ∷ rest else q ∷ insert_result r rest

-- `task_map[task_id]`: of several tasks with one id the last is kept.
unfoldable pub task_map : List SubTask → Text → Option SubTask
task_map [] id = none
task_map (t ∷ ts) id = elim (task_map ts id) [
  | some later ↦ some later
  | none ↦ if text_eq t.id id then some t else none
]

-- What the runner meets while it runs: the control flag before each wave, whether a workspace can
-- be made, and what an agent returns (`none` when its thread panicked).
pub record Agents : Type 0 where
  pub control : ℕ → ControlState
  pub create : ℕ → SubTask → Option Text
  pub run : ℕ → SubTask → Option (Result Text AgentResult)

unfoldable pub is_unblocked : Completed → SubTask → Bool
is_unblocked completed t =
    not (contains (done_ids completed) t.id)
    && all (λ d. contains (done_ids completed) d) t.depends_on

unfoldable pub ready : Completed → List SubTask → List Text
unfolding is_unblocked
ready completed tasks = ids (filter (is_unblocked completed) tasks)

-- One finished agent: an error is a result too, a panic is only logged.
unfoldable pub collect : SubTask → Option (Result Text AgentResult) → Completed → Completed
unfolding insert_result
collect t (some (ok a)) completed =
    insert_result (record { task = t; agent_result = some a; error = none }) completed
collect t (some (err e)) completed =
    insert_result (record { task = t; agent_result = none; error = some e }) completed
collect t none completed = completed

pub data WavesResult : Type 0 where
  finished : (completed : Completed) (halted : Bool) → WavesResult
  failed : Text → WavesResult
  out_of_fuel : WavesResult

module _ (agents : Agents) (max_concurrent : ℕ) (tasks : List SubTask) where
  -- The workspaces are made before any agent of the wave starts; the first failure ends the run.
  unfoldable pub create_all : ℕ → List Text → Option Text
  unfolding task_map
  create_all wave [] = none
  create_all wave (id ∷ rest) =
      let later = create_all wave rest in
      elim (task_map tasks id) [
        | none ↦ later
        | some t ↦ elim (agents.create wave t) [ some e ↦ some e | none ↦ later ]
      ]

  unfoldable pub run_wave : ℕ → List Text → Completed → Completed
  unfolding task_map collect
  run_wave wave [] completed = completed
  run_wave wave (id ∷ rest) completed = run_wave wave rest (elim (task_map tasks id) [
    | none ↦ completed
    | some t ↦ collect t (agents.run wave t) completed
  ])

  unfoldable pub waves : ℕ → ℕ → Completed → WavesResult
  unfolding ready create_all run_wave
  waves zero wave completed = out_of_fuel
  waves (suc fuel) wave completed =
      let chosen = take max_concurrent (ready completed tasks) in
      let rest = waves fuel (wave + 1) (run_wave wave chosen completed) in
      if ltb (length completed) (length tasks)
      then elim (agents.control wave) [
        | continue ↦ elim (ready completed tasks) [
          | [] ↦ finished completed false
          | _ ∷ _ ↦ elim (create_all wave chosen) [ some e ↦ failed e | none ↦ rest ]
        ]
        | _ ↦ finished completed true
      ]
      else finished completed false

-- `for task in &tasks { if let Some(r) = completed.remove(&task.id) { results.push(r) } }`
unfoldable pub in_order : List SubTask → Completed → List TaskRunResult
in_order [] completed = []
in_order (t ∷ ts) completed =
    let rest = in_order ts (filter (λ r. not (text_eq r.task.id t.id)) completed) in
    elim (find (λ r. text_eq r.task.id t.id) completed) [ some r ↦ r ∷ rest | none ↦ rest ]
