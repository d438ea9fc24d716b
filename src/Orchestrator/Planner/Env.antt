-- ===== src/Orchestrator/Planner/Env.antt =====
-- What planner_types.rs takes from elsewhere.
use alpha_swarm.Prelude.{Text, List, Option, Bool}
use alpha_swarm.Orchestrator.Task.{SubTask}

pub record PlannerEnv : Type 0 where
  -- `serde_json::from_str::<Vec<SubTask>>(..).ok()`
  pub json_tasks : Text → Option (List SubTask)
  -- Unicode's tables: `str::to_lowercase`, and `char::is_alphanumeric` of a character's bytes
  pub lowercase : Text → Text
  pub is_alphanumeric : Text → Bool
  -- the order in which a hash set gives its elements
  pub hash_order : List Text → List Text
