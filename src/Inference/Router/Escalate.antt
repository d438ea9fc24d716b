-- ===== src/Inference/Router/Escalate.antt =====
-- `escalate_model` of crates/inference-client/src/router.rs.
use alpha_swarm.Prelude.{ℕ, Text, List, [], Option, none, some, inl, inr, ◌⊎◌, ltb, Result, ok, err}
use alpha_swarm.Orchestrator.Task.{Complexity}
use alpha_swarm.Inference.{BackendKind, ModelInfo, Numbers, best_ollama_by_size, find_model}
use alpha_swarm.Inference.Select.{IsBest, best_ollama_by_size-IsBest, IsAnyOf, find_model-IsAnyOf}
use alpha_swarm.Inference.Router.{
  InferenceRouter, Backends, list_models, failed_size, escalated, escalate_model,
}

-- A larger model than the one that failed, or Claude when there is none; an error only when there is
-- neither.
abbrev pub IsEscalation : Numbers → ℕ → List ModelInfo → Result Text ModelInfo → Type 0
IsEscalation numbers failed models (ok m) =
    IsBest numbers models (λ size. ltb failed size) (some m)
    ⊎ (IsBest numbers models (λ size. ltb failed size) none
        × IsAnyOf BackendKind.claude models (some m))
IsEscalation numbers failed models (err e) =
    IsBest numbers models (λ size. ltb failed size) none × IsAnyOf BackendKind.claude models none

module _ {W : Type 0} (numbers : Numbers) (backends : Backends W) where
  escalated-IsEscalation :
      (failed_model : Text) (failed : ℕ) (models : List ModelInfo)
      (bigger claude : Option ModelInfo)
      → IsBest numbers models (λ size. ltb failed size) bigger
      → IsAnyOf BackendKind.claude models claude
      → IsEscalation numbers failed models (escalated numbers backends failed_model bigger claude)
  escalated-IsEscalation failed_model failed models (some m) claude h k = inl h
  escalated-IsEscalation failed_model failed models none (some m) h k = inr (h, k)
  escalated-IsEscalation failed_model failed models none none h k = (h, k)

-- Among the models that the backends list, `escalate_model` picks a ready Ollama model that is larger
-- than the failed one, a code model before others and then the smallest; a ready Claude model only when
-- there is no larger one; and fails only when there is neither.
pub escalate_model-IsEscalation :
    {W : Type 0} (numbers : Numbers) (backends : Backends W) (failed_model : Text)
    (complexity : Complexity) (r : InferenceRouter W)
    → let models = (list_models numbers backends r).0 in
      IsEscalation numbers
        (failed_size numbers backends failed_model models)
        models
        (escalate_model numbers backends failed_model complexity r).0
unfolding escalate_model
escalate_model-IsEscalation numbers backends failed_model complexity r =
    let models = (list_models numbers backends r).0 in
    let failed = failed_size numbers backends failed_model models in
    escalated-IsEscalation numbers backends failed_model failed models
      (best_ollama_by_size numbers models (λ size. ltb failed size))
      (find_model models BackendKind.claude [])
      (best_ollama_by_size-IsBest numbers models (λ size. ltb failed size))
      (find_model-IsAnyOf BackendKind.claude models)
