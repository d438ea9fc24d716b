-- ===== src/Inference/Samples.antt =====
-- A backend that always fails, one with two models that always answers, and a router over both.
use alpha_swarm.Prelude.{
  Text, text, text_eq, List, [], ◌∷◌, none, some, true, nat_eq, if◌then◌else◌,
}
use alpha_swarm.Inference.{
  BackendKind, ModelInfo, ChatMessage, InferenceOptions, InferenceResponse, Numbers,
}
use alpha_swarm.Inference.Router.{InferenceRouter, Backends}

abbrev pub numbers : Numbers
numbers = record {
  lowercase = λ t. t;
  float_as_u32 = λ t.
      if text_eq t (text "7.6B") then some 7 else if text_eq t (text "33B") then some 33 else none;
}

abbrev pub model : Text → Text → ModelInfo
model name size = record {
  name = name;
  backend = BackendKind.ollama;
  family = text "f";
  parameter_size = size;
  context_window = 4096;
  ready = true;
}

abbrev pub small : ModelInfo
small = model (text "qwen2.5-coder:7b") (text "7.6B")

abbrev pub large : ModelInfo
large = model (text "deepseek-coder:33b") (text "33B")

abbrev pub options : InferenceOptions
options = record {
  preferred_backend = some BackendKind.claude;
  preferred_model = none;
  temperature = none;
  max_tokens = none;
  stop = none;
}

abbrev pub hello : Text → InferenceResponse
hello name = record {
  content = text "hello";
  model = name;
  backend = BackendKind.ollama;
  tokens_input = 1;
  tokens_output = 1;
  cached_tokens = 0;
  duration_ms = 5;
}

abbrev pub backends : Backends (Unit {0})
backends = record {
  backend_count = 2;
  kind = λ idx. if nat_eq idx 1 then BackendKind.ollama else BackendKind.claude;
  models_of = λ idx r. (if nat_eq idx 1 then some (small ∷ large ∷ []) else none, r);
  is_healthy = λ idx r. (nat_eq idx 1, r);
  ask = λ idx name messages options r. (if nat_eq idx 1 then some (hello name) else none, r);
}

abbrev pub router : InferenceRouter (Unit {0})
router = record { in_flight = λ i. if nat_eq i 0 then 2 else 0; rr = 5; world = tt }

abbrev pub messages : List ChatMessage
messages = record { role = text "user"; content = text "test" } ∷ []
