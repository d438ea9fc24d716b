-- ===== src/Workflow/Samples.antt =====
-- Small runs and environments for the witnesses.
use alpha_swarm.Prelude.{ℕ, suc, Text, text, List, [], ◌∷◌, map, none, some, true, false, ok, err}
use alpha_swarm.Orchestrator.Task.{SubTask, Complexity}
use alpha_swarm.Orchestrator.Runner.{TaskRunResult}
use alpha_swarm.Orchestrator.Runner.Control.{continue}
use alpha_swarm.Workflow.Model.{WorkflowRun, from_tasks}
use alpha_swarm.Workflow.Engine.Env.{Env, EngineOutcome, paused, succeeded}
use alpha_swarm.Workflow.Engine.Loop.{Session, Ended, returned, raised, out_of_fuel, empty_result}

abbrev pub task : Text → List Text → SubTask
task id deps = record {
  id = id;
  description = text "do it";
  files = text "src/lib.rs" ∷ [];
  complexity = Complexity.simple;
  depends_on = deps;
  edit = none;
  template = none;
}

abbrev pub a : Text
a = text "a"

abbrev pub b : Text
b = text "b"

abbrev pub chain : List SubTask
chain = task a [] ∷ task b (a ∷ []) ∷ []

abbrev pub run_of : List SubTask → WorkflowRun
run_of tasks = from_tasks (text "p") (text "g") (text "run-1") tasks (text "t")

abbrev applied_by : SubTask → TaskRunResult
applied_by t = record {
  task = t;
  agent_result = some (record {
    applied = true;
    skipped = false;
    run_id = none;
    attempt = 1;
    escalated_from = none;
  });
  error = none;
}

-- Every agent applies its task, nothing is paused, and every checkpoint is written.
abbrev pub quiet : Env
quiet = record {
  World = ℕ;
  now = λ w. (text "now", w);
  control_state = λ w. (continue, w);
  control_resume = λ w. w;
  drop_control = λ id w. w;
  update_run = λ wf w. (ok tt, suc w);
  publish = λ e w. w;
  path_exists = λ path w. true;
  run_command = λ program args w. (succeeded, w);
  replan_goal = λ request w. (err (text "no model"), w);
  run_planned = λ goal tasks w. (
    ok (record (empty_result goal ((text "src/lib.rs", text "v2") ∷ [])) {
      results = map applied_by tasks;
    }),
    w,
  );
  debug_condition = λ c. [];
}

abbrev idle_session : Session ℕ
idle_session = record { wf = run_of []; aggregate = none; world = 0 }

abbrev pub session_of : Ended ℕ → Session ℕ
session_of (returned o s) = s
session_of (raised e s) = s
session_of (out_of_fuel s) = s

abbrev pub outcome_of : Ended ℕ → EngineOutcome
outcome_of (returned o s) = o
outcome_of _ = paused
