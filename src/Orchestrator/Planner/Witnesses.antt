-- ===== src/Orchestrator/Planner/Witnesses.antt =====
-- The theorems about the planner at concrete inputs.
use alpha_swarm.Prelude.{
  Text, text, text_eq, [], ◌∷◌, some, Bool, true, false, ◌≡◌, ◌↔◌, refl, In, is_prefix,
}
use alpha_swarm.Prelude.Maps.{text_lt}
use alpha_swarm.Orchestrator.Task.{SubTask}
use alpha_swarm.Orchestrator.Planner.Samples.{one_after_other, in_a_ring, repo_files, env, task}
use alpha_swarm.Orchestrator.Planner.Cycle.{detect_cycle}
use alpha_swarm.Orchestrator.Planner.Cycle.Exact.{DependsOn, detect_cycle_iff}
use alpha_swarm.Orchestrator.Planner.Parse.{is_empty, parse_plan, planned, panicked}
use alpha_swarm.Orchestrator.Planner.Scope.{named_files_in_goal, constrain_to_named_files}
use alpha_swarm.Orchestrator.Planner.Scope.Guard.{IsScoped, constrain_to_named_files_lem}

program : Unit {0}
unfolding parse_plan constrain_to_named_files text_eq is_prefix text_lt
program = tt

ring_found : detect_cycle (λ xs. xs) in_a_ring ≡ some true
unfolding program
ring_found = refl

plan_found : parse_plan env (text " [ok] ") repo_files ≡ planned one_after_other
unfolding program
plan_found = refl

late_bracket : parse_plan env (text "done] see [1") repo_files ≡ panicked
unfolding program
late_bracket = refl

-- The task that `b` depends on is dropped, and the dependency stays.
dangling :
    constrain_to_named_files env
      (text "fix README.md")
      (task (text "a") (text "src/lib.rs" ∷ []) []
        ∷ task (text "b") (text "README.md" ∷ []) (text "a" ∷ [])
        ∷ [])
      repo_files
    ≡ task (text "b") (text "README.md" ∷ []) (text "a" ∷ []) ∷ []
unfolding program
dangling = refl

-- A task on the named file whose direct edit is on another one.
abbrev elsewhere : SubTask
elsewhere = record (task (text "a") (text "README.md" ∷ []) []) {
  edit = some (record { path = text "src/lib.rs"; old = text "x"; new = text "y" });
}

-- The guard looks at the files of a task, and not at the path of its edit.
edit_kept :
    constrain_to_named_files env (text "fix README.md") (elsewhere ∷ []) repo_files ≡ elsewhere ∷ []
unfolding program
edit_kept = refl

detect_cycle_iff_example :
    (b : Bool) × (detect_cycle (λ xs. xs) in_a_ring ≡ some b)
    × ((b ≡ true) ↔ ((n : Text) × DependsOn in_a_ring n n))
detect_cycle_iff_example = detect_cycle_iff (λ xs. xs) in_a_ring λ xs x. refl

constrain_to_named_files_lem_example :
    (is_empty (constrain_to_named_files env (text "fix README.md") one_after_other repo_files)
      ≡ false)
    × ((t : SubTask)
        → In t (constrain_to_named_files env (text "fix README.md") one_after_other repo_files)
        → IsScoped (named_files_in_goal env (text "fix README.md") repo_files) repo_files t)
unfolding program
constrain_to_named_files_lem_example =
    constrain_to_named_files_lem env (text "fix README.md") one_after_other repo_files refl
