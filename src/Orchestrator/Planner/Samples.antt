-- ===== src/Orchestrator/Planner/Samples.antt =====
-- A plan of two tasks, a model that answers with it, and a repository.
use alpha_swarm.Prelude.{Text, text, text_eq, List, [], ◌∷◌, none, some, if◌then◌else◌}
use alpha_swarm.Orchestrator.Task.{SubTask, Complexity}
use alpha_swarm.Orchestrator.Planner.Env.{PlannerEnv}

abbrev pub task : Text → List Text → List Text → SubTask
task id files depends_on = record {
  id = id;
  description = text "do it";
  files = files;
  complexity = Complexity.simple;
  depends_on = depends_on;
  edit = none;
  template = none;
}

abbrev pub one_after_other : List SubTask
one_after_other =
    task (text "a") (text "src/lib.rs" ∷ []) []
    ∷ task (text "b") (text "src/new.rs" ∷ []) (text "a" ∷ [])
    ∷ []

abbrev pub in_a_ring : List SubTask
in_a_ring =
    task (text "a") (text "src/lib.rs" ∷ []) (text "b" ∷ [])
    ∷ task (text "b") (text "src/lib.rs" ∷ []) (text "a" ∷ [])
    ∷ []

abbrev pub repo_files : List Text
repo_files = text "src/lib.rs" ∷ text "README.md" ∷ []

abbrev pub env : PlannerEnv
env = record {
  json_tasks = λ t.
      if text_eq t (text "[ok]")
      then some one_after_other
      else if text_eq t (text "[ring]")
      then some in_a_ring
      else none;
  lowercase = λ t. t;
  is_alphanumeric = λ c. text_eq c (text "x");
  hash_order = λ xs. xs;
}
