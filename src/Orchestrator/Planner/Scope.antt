-- ===== src/Orchestrator/Planner/Scope.antt =====
-- crates/orchestrator/src/planner_types.rs, `constrain_to_named_files`: the scope guard.
pub mod Guard
use alpha_swarm.Prelude.{
  ℕ, Text, text, text_eq, contains, List, [], ◌∷◌, ◌++◌, map, filter, Option, none, some, Bool,
  true, false, not, ◌&&◌, ◌||◌, leb, ltb, if◌then◌else◌, text_contains, rsplit_once, take_chars,
  join, length, nat_eq,
}
use alpha_swarm.Orchestrator.Task.{SubTask, Complexity}
use alpha_swarm.Orchestrator.Planner.Env.{PlannerEnv}
use alpha_swarm.Orchestrator.Planner.Parse.{is_empty}

-- `rsplit('/').next()`
abbrev base_name : Text → Text
base_name f = elim (rsplit_once b'/' f) [ none ↦ f | some (dir, name) ↦ name ]

abbrev names_base : PlannerEnv → Text → Text → Bool
names_base env g f =
    let base = env.lowercase (base_name f) in
    leb 5 (length base) && (text_contains base (text ".") && text_contains g base)

unfoldable pub named_files_in_goal : PlannerEnv → Text → List Text → List Text
unfolding text_contains rsplit_once
named_files_in_goal env goal repo_files =
    let g = env.lowercase goal in
    let full = filter (λ f. text_contains g (env.lowercase f)) repo_files in
    if is_empty full then filter (names_base env g) repo_files else full

-- Named files and files that are still to be created.
abbrev pub is_in_scope : List Text → List Text → Text → Bool
is_in_scope named repo_files f = contains named f || not (contains repo_files f)

abbrev pub clamp_task : List Text → List Text → SubTask → SubTask
clamp_task named repo_files t = record t { files = filter (is_in_scope named repo_files) t.files }

unfoldable pub clamp : List Text → List Text → List SubTask → List SubTask
clamp named repo_files tasks =
    filter (λ t. not (is_empty t.files)) (map (clamp_task named repo_files) tasks)

abbrev pub add_new : Text → List Text → List Text
add_new f files = if contains files f then files else f ∷ files

abbrev pub add_all : List Text → List Text → List Text
add_all [] files = files
add_all (f ∷ fs) files = add_new f (add_all fs files)

-- The set of all the tasks' files.
unfoldable pub all_files : List SubTask → List Text
all_files [] = []
all_files (t ∷ tasks) = add_all t.files (all_files tasks)

abbrev first_template : List SubTask → Option Text
first_template [] = none
first_template (t ∷ tasks) = elim t.template [ some x ↦ some x | none ↦ first_template tasks ]

abbrev pub merged_task : List SubTask → Text → SubTask
merged_task tasks file = record {
  id = text "task-1";
  description = take_chars 800 (join (text "; ") (map (λ t. t.description) tasks));
  files = file ∷ [];
  complexity = Complexity.complex;
  depends_on = [];
  edit = none;
  template = first_template tasks;
}

-- Several tasks that have one file between them become one task.
unfoldable pub collapse : List SubTask → List SubTask
unfolding all_files join take_chars
collapse tasks = elim (all_files tasks) [
  | file ∷ [] ↦ if ltb 1 (length tasks) then merged_task tasks file ∷ [] else tasks
  | _ ↦ tasks
]

abbrev pub named_task : Text → List Text → SubTask
named_task goal named = record {
  id = text "task-1";
  description = take_chars 500 goal;
  files = named;
  complexity = Complexity.medium;
  depends_on = [];
  edit = none;
  template = none;
}

unfoldable pub constrain_to_named_files :
    PlannerEnv → Text → List SubTask → List Text → List SubTask
unfolding named_files_in_goal clamp collapse take_chars
constrain_to_named_files env goal tasks repo_files =
    let named = named_files_in_goal env goal repo_files in
    let clamped = clamp named repo_files tasks in
    if is_empty named
    then tasks
    else if is_empty clamped
    then collapse (named_task goal named ∷ [])
    else collapse clamped
