-- ===== src/Inference/Router.antt =====
-- crates/inference-client/src/router.rs: `InferenceRouter` over its backends. A call of a backend is
-- given the router and returns it, with what other requests did to the counters while it waited.
pub mod Chat
pub mod Order
pub mod Counters
pub mod Failover
pub mod Answers
pub mod Escalate
use alpha_swarm.Prelude.{
  ℕ, zero, suc, ◌+◌, ◌*◌, ◌%◌, ◌^◌, Text, text, text_eq, List, [], ◌∷◌, ◌++◌, map, filter, find,
  take, drop, Option, none, some, Bool, true, false, not, ◌&&◌, if◌then◌else◌, ltb, leb, nat_eq,
  length, Result, ok, err,
}
use alpha_swarm.Orchestrator.Task.{Complexity}
use alpha_swarm.Inference.{
  BackendKind, same_backend, ModelInfo, ChatMessage, InferenceOptions, InferenceResponse, Numbers,
  parse_param_size_b, best_ollama_by_size, largest_ollama, find_model, any_ready, sort_by, first_of,
  or_else,
}

-- The counters of requests in flight, the cursor, and everything outside.
pub record InferenceRouter (W : Type 0) : Type 0 where
  pub in_flight : ℕ → ℕ
  pub rr : ℕ
  pub world : W

-- The backends, by their index: how many there are, their kinds, and their calls (`none` is an error).
pub record Backends (W : Type 0) : Type 0 where
  pub backend_count : ℕ
  pub kind : ℕ → BackendKind
  pub models_of : ℕ → InferenceRouter W → Option (List ModelInfo) × InferenceRouter W
  pub is_healthy : ℕ → InferenceRouter W → Bool × InferenceRouter W
  pub ask :
      ℕ
      → Text
      → List ChatMessage
      → InferenceOptions
      → InferenceRouter W
      → Option InferenceResponse × InferenceRouter W

-- The derived `Debug`.
abbrev pub complexity_debug : Complexity → Text
complexity_debug Complexity.simple = text "Simple"
complexity_debug Complexity.medium = text "Medium"
complexity_debug Complexity.complex = text "Complex"

abbrev pub or_no_models : Option (List ModelInfo) → List ModelInfo
or_no_models none = []
or_no_models (some models) = models

abbrev pub tagged : ℕ → List ModelInfo → List (ℕ × ModelInfo)
tagged idx models = map (λ m. (idx, m)) models

-- `add` on the counter of one backend, on 64 bits.
abbrev pub add_at : ℕ → ℕ → (ℕ → ℕ) → ℕ → ℕ
add_at idx n counters i = if nat_eq i idx then (counters i + n) % 2 ^ 64 else counters i

-- The leading elements that pass the test, and the rest.
abbrev pub span : (ℕ → Bool) → List ℕ → List ℕ × List ℕ
span p [] = ([], [])
span p (i ∷ is) = let (front, rest) = span p is in if p i then (i ∷ front, rest) else ([], i ∷ is)

abbrev pub rotate_left : ℕ → List ℕ → List ℕ
rotate_left n is = drop n is ++ take n is

module _ {W : Type 0} (numbers : Numbers) (backends : Backends W) where
  -- The loops over the backends count up from `idx` to the last.
  unfoldable pub models_from : ℕ → ℕ → InferenceRouter W → List ModelInfo × InferenceRouter W
  models_from zero idx r = ([], r)
  models_from (suc left) idx r =
      let (models, r') = backends.models_of idx r in
      let (later, r'') = models_from left (suc idx) r' in (or_no_models models ++ later, r'')

  unfoldable pub list_models : InferenceRouter W → List ModelInfo × InferenceRouter W
  unfolding models_from
  list_models r = models_from backends.backend_count 0 r

  unfoldable pub statuses_from :
      ℕ → ℕ → InferenceRouter W → List (BackendKind × Bool) × InferenceRouter W
  statuses_from zero idx r = ([], r)
  statuses_from (suc left) idx r =
      let (healthy, r') = backends.is_healthy idx r in
      let (later, r'') = statuses_from left (suc idx) r' in
      ((backends.kind idx, healthy) ∷ later, r'')

  unfoldable pub list_backends : InferenceRouter W → List (BackendKind × Bool) × InferenceRouter W
  unfolding statuses_from
  list_backends r = statuses_from backends.backend_count 0 r

  unfoldable pub indexed_from : ℕ → ℕ → InferenceRouter W → List (ℕ × ModelInfo) × InferenceRouter W
  indexed_from zero idx r = ([], r)
  indexed_from (suc left) idx r =
      let (models, r') = backends.models_of idx r in
      let (later, r'') = indexed_from left (suc idx) r' in
      (tagged idx (or_no_models models) ++ later, r'')

  unfoldable pub list_models_indexed : InferenceRouter W → List (ℕ × ModelInfo) × InferenceRouter W
  unfolding indexed_from
  list_models_indexed r = indexed_from backends.backend_count 0 r

  unfoldable pub picked : Complexity → List ModelInfo → Option ModelInfo
  unfolding best_ollama_by_size largest_ollama find_model any_ready
  picked Complexity.complex models =
      or_else (find_model models BackendKind.claude (text "sonnet")) (
        or_else (find_model models BackendKind.claude [])
          (or_else (largest_ollama numbers models) (any_ready models)))
  picked _ models = or_else (best_ollama_by_size numbers models (λ size. true)) (any_ready models)

  abbrev pub is_same_model : ModelInfo → ℕ × ModelInfo → Bool
  is_same_model model (i, m) = text_eq m.name model.name && same_backend m.backend model.backend

  abbrev pub hosts_of : List (ℕ × ModelInfo) → ModelInfo → List ℕ
  hosts_of indexed model = map (λ im. im.0) (filter (is_same_model model) indexed)

  abbrev pub pick_among :
      Complexity → List (ℕ × ModelInfo) → Option ModelInfo → Result Text (ModelInfo × List ℕ)
  pick_among complexity [] pick = err (text "No models available on any backend")
  pick_among complexity (im ∷ indexed) none =
      err (text "No suitable model for complexity " ++ complexity_debug complexity)
  pick_among complexity (im ∷ indexed) (some model) = ok (model, hosts_of (im ∷ indexed) model)

  -- The choice is computed before the test for no models at all, which it does not change.
  unfoldable pub pick_model_and_hosts :
      Complexity → InferenceRouter W → Result Text (ModelInfo × List ℕ) × InferenceRouter W
  unfolding list_models_indexed picked text_eq
  pick_model_and_hosts complexity r =
      let (indexed, r') = list_models_indexed r in
      (pick_among complexity indexed (picked complexity (map (λ im. im.1) indexed)), r')

  abbrev model_of : Result Text (ModelInfo × List ℕ) → Result Text ModelInfo
  model_of (ok (model, hosts)) = ok model
  model_of (err e) = err e

  unfoldable pub recommend_model :
      Complexity → InferenceRouter W → Result Text ModelInfo × InferenceRouter W
  unfolding pick_model_and_hosts
  recommend_model complexity r =
      let (pick, r') = pick_model_and_hosts complexity r in (model_of pick, r')

  -- `order_by_load`: a stable sort by the counters, whose equal leaders are rotated by the cursor.
  abbrev pub is_lighter : InferenceRouter W → ℕ → ℕ → Bool
  is_lighter r i j = leb (r.in_flight i) (r.in_flight j)

  abbrev pub rotated :
      InferenceRouter W → List ℕ → Bool → List ℕ × List ℕ → List ℕ × InferenceRouter W
  rotated r ordered true (front, rest) =
      (rotate_left (r.rr % length front) front ++ rest, record r { rr = (r.rr + 1) % 2 ^ 64 })
  rotated r ordered false (front, rest) = (ordered, r)

  abbrev pub spread : InferenceRouter W → List ℕ → Option ℕ → List ℕ × InferenceRouter W
  spread r ordered none = (ordered, r)
  spread r ordered (some i) =
      let parts = span (λ j. nat_eq (r.in_flight j) (r.in_flight i)) ordered in
      rotated r ordered (ltb 1 (length parts.0)) parts

  unfoldable pub order_by_load : List ℕ → InferenceRouter W → List ℕ × InferenceRouter W
  order_by_load candidates r =
      let ordered = sort_by (is_lighter r) candidates in
      if ltb 1 (length ordered) then spread r ordered (first_of ordered) else (ordered, r)

  abbrev or_zero_size : Option ModelInfo → Text
  or_zero_size none = text "0"
  or_zero_size (some m) = m.parameter_size

  abbrev pub escalated : Text → Option ModelInfo → Option ModelInfo → Result Text ModelInfo
  escalated failed_model (some bigger) claude = ok bigger
  escalated failed_model none (some claude) = ok claude
  escalated failed_model none none =
      err (text "No larger model available for escalation from " ++ failed_model)

  unfoldable pub failed_size : Text → List ModelInfo → ℕ
  unfolding parse_param_size_b text_eq
  failed_size failed_model models =
      parse_param_size_b numbers (or_zero_size (find (λ m. text_eq m.name failed_model) models))

  unfoldable pub escalate_model :
      Text → Complexity → InferenceRouter W → Result Text ModelInfo × InferenceRouter W
  unfolding list_models failed_size best_ollama_by_size find_model
  escalate_model failed_model complexity r =
      let (models, r') = list_models r in
      (
        escalated failed_model
            (best_ollama_by_size numbers models
              (λ size. ltb (failed_size failed_model models) size))
            (find_model models BackendKind.claude []),
        r',
      )
