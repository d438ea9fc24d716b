-- ===== src/Inference/Router/Chat.antt =====
-- crates/inference-client/src/router.rs, `chat`: the preferred model's host, the preferred backend, the
-- hosts of the model of the tier, and every backend.
use alpha_swarm.Prelude.{
  ℕ, zero, suc, ◌-◌, ◌^◌, Text, text, text_eq, List, [], ◌∷◌, find, Option, none, some,
  if◌then◌else◌, ltb, Result, ok, err,
}
use alpha_swarm.Orchestrator.Task.{Complexity}
use alpha_swarm.Inference.{
  BackendKind, same_backend, ModelInfo, ChatMessage, InferenceOptions, InferenceResponse, Numbers,
  largest_ollama, or_else,
}
use alpha_swarm.Inference.Router.{
  InferenceRouter, Backends, or_no_models, add_at, list_models_indexed, pick_model_and_hosts,
  order_by_load,
}

unfoldable pub default_model_for : BackendKind → Text
default_model_for BackendKind.claude = text "claude-sonnet-4-20250514"
default_model_for BackendKind.ollama = text "qwen2.5-coder:7b"

abbrev pub or_default : BackendKind → Option Text → Text
unfolding default_model_for
or_default kind none = default_model_for kind
or_default kind (some model) = model

-- What is tried next is asked for only when there is no answer.
abbrev pub Attempt : Type 0 → Type 0
Attempt W = Option InferenceResponse × InferenceRouter W

abbrev pub answer_or : {W : Type 0} → Attempt W → (InferenceRouter W → Attempt W) → Attempt W
answer_or (none, r) next = next r
answer_or (some response, r) next = (some response, r)

abbrev pub or_failed : {W : Type 0} → Attempt W → Result Text InferenceResponse × InferenceRouter W
or_failed (none, r) = (err (text "All inference backends failed"), r)
or_failed (some response, r) = (ok response, r)

module _ {W : Type 0} (numbers : Numbers) (backends : Backends W) (messages : List ChatMessage)
    (options : InferenceOptions) where
  -- A call under an `InFlightGuard`: one up before it, one down when the guard is dropped.
  unfoldable pub guarded : ℕ → Text → InferenceRouter W → Attempt W
  guarded idx model r =
      let (response, r') =
        backends.ask idx model messages options
          (record r { in_flight = add_at idx 1 r.in_flight }) in
      (response, record r' { in_flight = add_at idx (2 ^ 64 - 1) r'.in_flight })

  unfoldable pub at_host : Text → Option (ℕ × ModelInfo) → InferenceRouter W → Attempt W
  unfolding guarded
  at_host model none r = (none, r)
  at_host model (some (idx, m)) r = guarded idx model r

  unfoldable pub at_model : Option Text → InferenceRouter W → Attempt W
  unfolding list_models_indexed at_host text_eq
  at_model none r = (none, r)
  at_model (some model) r =
      let (indexed, r') = list_models_indexed numbers backends r in
      if ltb 1 backends.backend_count
      then at_host model (find (λ im. text_eq im.1.name model) indexed) r'
      else (none, r)

  abbrev pub first_of_kind : ℕ → ℕ → BackendKind → Option ℕ
  first_of_kind zero idx kind = none
  first_of_kind (suc left) idx kind =
      let later = first_of_kind left (suc idx) kind in
      if same_backend (backends.kind idx) kind then some idx else later

  unfoldable pub ask_index : Text → Option ℕ → InferenceRouter W → Attempt W
  ask_index model none r = (none, r)
  ask_index model (some idx) r = backends.ask idx model messages options r

  unfoldable pub at_backend : Option BackendKind → InferenceRouter W → Attempt W
  unfolding or_default ask_index
  at_backend none r = (none, r)
  at_backend (some kind) r =
      ask_index (or_default kind options.preferred_model)
        (first_of_kind backends.backend_count 0 kind) r

  unfoldable pub try_hosts : Text → List ℕ → InferenceRouter W → Attempt W
  unfolding guarded
  try_hosts model [] r = (none, r)
  try_hosts model (idx ∷ hosts) r = answer_or (guarded idx model r) (try_hosts model hosts)

  unfoldable pub fallback_model : List ModelInfo → Option ModelInfo
  unfolding largest_ollama
  fallback_model [] = none
  fallback_model (m ∷ models) = or_else (largest_ollama numbers (m ∷ models)) (some m)

  unfoldable pub fallback_at :
      ℕ → Text → Option ModelInfo → (InferenceRouter W → Attempt W) → InferenceRouter W → Attempt W
  unfolding text_eq
  fallback_at idx recommended none next r = next r
  fallback_at idx recommended (some m) next r =
      if text_eq m.name recommended
      then next r
      else answer_or (backends.ask idx m.name messages options r) next

  unfoldable pub fallback_from : Text → ℕ → ℕ → InferenceRouter W → Attempt W
  unfolding fallback_model fallback_at
  fallback_from recommended zero idx r = (none, r)
  fallback_from recommended (suc left) idx r =
      let (models, r') = backends.models_of idx r in
      fallback_at idx recommended (fallback_model (or_no_models models))
        (fallback_from recommended left (suc idx)) r'

  -- The hosts of the recommended model, the lightest first, and then every backend.
  unfoldable pub automatic :
      Result Text (ModelInfo × List ℕ)
      → InferenceRouter W
      → Result Text InferenceResponse × InferenceRouter W
  unfolding order_by_load try_hosts fallback_from
  automatic (err e) r = (err e, r)
  automatic (ok (recommended, hosts)) r =
      let (ordered, r') = order_by_load numbers backends hosts r in
      or_failed (
        answer_or (try_hosts recommended.name ordered r')
          (fallback_from recommended.name backends.backend_count 0))

  unfoldable pub or_automatic :
      Complexity → Attempt W → Result Text InferenceResponse × InferenceRouter W
  unfolding pick_model_and_hosts automatic
  or_automatic complexity (some response, r) = (ok response, r)
  or_automatic complexity (none, r) =
      let (pick, r') = pick_model_and_hosts numbers backends complexity r in automatic pick r'

  unfoldable pub chat :
      Complexity → InferenceRouter W → Result Text InferenceResponse × InferenceRouter W
  unfolding at_model at_backend or_automatic
  chat complexity r =
      or_automatic complexity
        (answer_or (at_model options.preferred_model r) (at_backend options.preferred_backend))

-- `generate`: a chat of one message of the user.
unfoldable pub generate :
    {W : Type 0}
    → Numbers
    → Backends W
    → InferenceOptions
    → Text
    → Complexity
    → InferenceRouter W
    → Result Text InferenceResponse × InferenceRouter W
unfolding chat
generate numbers backends options prompt complexity r =
    chat numbers backends (record { role = text "user"; content = prompt } ∷ []) options complexity
      r
