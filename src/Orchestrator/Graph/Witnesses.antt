-- ===== src/Orchestrator/Graph/Witnesses.antt =====
-- The theorem about the graph executor at a model that needs one fix.
use alpha_swarm.Prelude.{
  ℕ, suc, text, text_eq, [], ◌∷◌, none, some, true, false, ◌≡◌, refl, ltb, is_prefix, ends_with,
}
use alpha_swarm.EditParser.{FileEdit}
use alpha_swarm.Inference.{BackendKind, InferenceResponse}
use alpha_swarm.Orchestrator.Graph.{GraphExecutor, returned}
use alpha_swarm.Orchestrator.Graph.Fix.{execute_edit, execute_create}
use alpha_swarm.Orchestrator.Graph.Doc.{execute_doc}
use alpha_swarm.Orchestrator.Graph.Checked.{IsChecked, execute-IsChecked}

program : Unit {0}
unfolding execute_edit execute_create execute_doc text_eq is_prefix ends_with
program = tt

abbrev answer : InferenceResponse
answer = record {
  content = text "<<<CREATE a.rs\nx\n>>>";
  model = text "m";
  backend = BackendKind.ollama;
  tokens_input = 1;
  tokens_output = 1;
  cached_tokens = 0;
  duration_ms = 1;
}

-- The world counts the files written: the check passes from the second on.
abbrev executor : GraphExecutor ℕ
executor = record {
  crate_name = none;
  max_retries = 2;
  load = λ path n. some (text "old");
  store = λ path content n. (true, suc n);
  remove = λ path n. n;
  package_dir = λ f. none;
  shell = λ command n. (some (ltb 1 n, text "error"), n);
  call_llm = λ prompt n. (some answer, n);
}

abbrev created : FileEdit
created = FileEdit.create (text "a.rs") (text "x")

fixed_once : execute_create executor (text "t") (text "a.rs") 0 ≡ (
  returned (record { response = answer; edits = created ∷ created ∷ []; escalated = false }),
  2,
)
unfolding program
fixed_once = refl

execute-IsChecked_example :
    IsChecked executor (text "a.rs") (execute_edit executor (text "t") (text "a.rs") 0)
    × IsChecked executor (text "a.rs") (execute_create executor (text "t") (text "a.rs") 0)
execute-IsChecked_example = execute-IsChecked executor (text "t") (text "a.rs") 0
