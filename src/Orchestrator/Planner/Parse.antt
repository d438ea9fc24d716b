-- ===== src/Orchestrator/Planner/Parse.antt =====
-- crates/orchestrator/src/planner_types.rs, `parse_plan`: a model's answer as a plan.
pub mod Usable
pub mod Valid
use alpha_swarm.Prelude.{
  ℕ, ◌+◌, Text, text, contains, List, [], ◌∷◌, ◌++◌, map, filter, Option, none, some, Bool, true,
  false, not, ◌&&◌, if◌then◌else◌, starts_with, text_contains, text_find, text_rfind, drop, slice,
  take, take_chars, trim, length,
}
use alpha_swarm.Orchestrator.Task.{SubTask, Complexity}
use alpha_swarm.Orchestrator.Planner.Env.{PlannerEnv}
use alpha_swarm.Orchestrator.Planner.Cycle.{detect_cycle}
use alpha_swarm.Orchestrator.Planner.Paths.{validate_files, extract_file_paths_from_text}

abbrev pub max_tasks : ℕ
max_tasks = 5

abbrev or_empty {ℓ} : {A : Type ℓ} → Option (List A) → List A
or_empty none = []
or_empty (some xs) = xs

abbrev fence : Text
fence = text "```"

-- What stands between the marker and the next fence, trimmed; nothing when no fence follows.
abbrev between : Text → Text → Option Text
between marker input = elim (text_find marker input) [
  | none ↦ none
  | some start ↦
      let after = drop (start + length marker) input in
      elim (text_find fence after) [ none ↦ some [] | some end ↦ some (trim (take end after)) ]
]

unfoldable pub extracted : Text → Text
unfolding text_find trim
extracted input = elim (between (text "```json") input) [
  | some t ↦ t
  | none ↦ elim (between fence input) [ some t ↦ t | none ↦ [] ]
]

abbrev pub is_empty {ℓ} : {A : Type ℓ} → List A → Bool
is_empty [] = true
is_empty (x ∷ xs) = false

abbrev pub array_of : PlannerEnv → Option Text → Option (List SubTask)
array_of env none = none
array_of env (some array) = some (or_empty (env.json_tasks array))

-- From the first opening to the last closing bracket; `none` when the slice panics.
abbrev pub between_brackets : PlannerEnv → Text → Option ℕ → Option ℕ → Option (List SubTask)
between_brackets env input none end = some []
between_brackets env input (some start) none = some []
between_brackets env input (some start) (some end) = array_of env (slice start (end + 1) input)

unfoldable pub bracketed : PlannerEnv → Text → Option (List SubTask)
unfolding text_find text_rfind
bracketed env input =
    between_brackets env input (text_find (text "[") input) (text_rfind (text "]") input)

-- The first two attempts: the whole answer, and what stands in its code fence.
unfoldable pub first_tasks : PlannerEnv → Text → List SubTask
unfolding extracted
first_tasks env input =
    let fenced = extracted input in
    elim (env.json_tasks input) [
      | some tasks ↦ tasks
      | none ↦ if is_empty fenced then [] else or_empty (env.json_tasks fenced)
    ]

-- The three attempts at the tasks; `none` is a panic.
unfoldable pub tasks_of : PlannerEnv → Text → Option (List SubTask)
unfolding first_tasks bracketed
tasks_of env input =
    let first = first_tasks env input in if is_empty first then bracketed env input else some first

abbrev mentioned : Text → List Text → List Text → List Text
mentioned t [] files = files
mentioned t (f ∷ repo_files) files =
    mentioned t repo_files
      (if text_contains t f && not (contains files f) then files ++ (f ∷ []) else files)

-- The single task when the answer has none.
unfoldable pub fallback_task : PlannerEnv → Text → List Text → SubTask
unfolding text_contains extract_file_paths_from_text take_chars
fallback_task env json_str repo_files =
    let files = mentioned json_str repo_files (extract_file_paths_from_text env json_str) in
    record {
      id = text "task-1";
      description = take_chars 500 json_str;
      files =
          if is_empty files
          then take 5 (
              filter
                (λ f. not (starts_with f (text "target/")) && not (starts_with f (text ".git/")))
                repo_files)
          else files;
      complexity = Complexity.medium;
      depends_on = [];
      edit = none;
      template = none;
    }

-- What `parse_plan` gives: `Ok`, `Err`, or a panic; the search for cycles has fuel.
pub data Plan : Type 0 where
  planned : (tasks : List SubTask) → Plan
  refused : (error : Text) → Plan
  panicked out_of_fuel : Plan

-- The tasks that are left once their files are validated.
unfoldable pub validated : List Text → List SubTask → List SubTask
unfolding validate_files
validated repo_files tasks =
    filter (λ t. not (is_empty t.files)) (map (validate_files repo_files) (take max_tasks tasks))

unfoldable pub check_plan : PlannerEnv → List SubTask → Plan
unfolding detect_cycle
check_plan env tasks =
    if is_empty tasks
    then refused (text "All planned tasks have no valid files")
    else elim (detect_cycle env.hash_order tasks) [
      | none ↦ out_of_fuel
      | some cyclic ↦
          if cyclic
          then refused (text "Dependency cycle detected in planned tasks")
          else planned tasks
    ]

unfoldable pub parse_plan : PlannerEnv → Text → List Text → Plan
unfolding tasks_of fallback_task validated check_plan trim
parse_plan env json_str repo_files = elim (tasks_of env (trim json_str)) [
  | none ↦ panicked
  | some tasks ↦
      if is_empty tasks
      then planned (fallback_task env json_str repo_files ∷ [])
      else check_plan env (validated repo_files tasks)
]
