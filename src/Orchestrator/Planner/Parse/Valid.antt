-- ===== src/Orchestrator/Planner/Parse/Valid.antt =====
-- What each outcome of `parse_plan` says of the answer, and when it panics.
use alpha_swarm.Prelude.{
  ℕ, ◌+◌, ◌<◌, Text, text, List, [], ◌∷◌, take, some, true, false, ◌≡◌, ◌⊎◌, In, trim, text_find,
  text_rfind,
}
use alpha_swarm.Orchestrator.Task.{SubTask}
use alpha_swarm.Orchestrator.Planner.Env.{PlannerEnv}
use alpha_swarm.Orchestrator.Planner.Cycle.Exact.{DependsOn}
use alpha_swarm.Orchestrator.Planner.Paths.{validate_files}
use alpha_swarm.Orchestrator.Planner.Parse.{
  is_empty, first_tasks, tasks_of, fallback_task, Plan, planned, refused, panicked, out_of_fuel,
  validated, max_tasks,
}
use alpha_swarm.Orchestrator.Planner.Parse.Usable.{IsPlan}

-- The only way to panic: the first opening bracket stands after the last closing one.
abbrev pub HasLateBracket : Text → Type 0
HasLateBracket input =
    (start : ℕ) × (end : ℕ) × (text_find (text "[") input ≡ some start)
    × (text_rfind (text "]") input ≡ some end)
    × (end + 1 < start)

-- Tasks that the attempts found.
abbrev pub Finds : PlannerEnv → Text → List SubTask → Type 0
Finds env json_str found = (tasks_of env (trim json_str) ≡ some found) × (is_empty found ≡ false)

-- None of the tasks within the bound has a file that can be used.
abbrev pub HasNoFiles : List Text → List SubTask → Type 0
HasNoFiles repo_files found =
    (t : SubTask)
    → In t (take max_tasks found)
    → is_empty (validate_files repo_files t).files ≡ true

abbrev pub Outcome : PlannerEnv → Text → List Text → Plan → Type 0
Outcome env json_str repo_files (planned tasks) =
    ((tasks_of env (trim json_str) ≡ some [])
      × (tasks ≡ fallback_task env json_str repo_files ∷ []))
    ⊎ ((found : List SubTask) × Finds env json_str found
        × (tasks ≡ validated repo_files found)
        × IsPlan repo_files tasks)
Outcome env json_str repo_files (refused error) =
    (found : List SubTask) × Finds env json_str found
    × (HasNoFiles repo_files found ⊎ ((n : Text) × DependsOn (validated repo_files found) n n))
Outcome env json_str repo_files panicked =
    (is_empty (first_tasks env (trim json_str)) ≡ true) × HasLateBracket (trim json_str)
Outcome env json_str repo_files out_of_fuel = ⊥
