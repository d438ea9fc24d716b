-- ===== src/Inference/Router/Answers.antt =====
-- With one backend that is up, `chat` of crates/inference-client/src/router.rs gets an answer.
use alpha_swarm.Prelude.{
  ℕ, Text, text, text_eq, text_eq_iff, List, [], ◌∷◌, map, filter, Option, none, some, true, ◌≡◌,
  refl, sym, ◌∙◌, ap, subst, arith, Bool-cases, inl, inr, In, here, In-filter_of, In-map, In-map_of,
  Result, ok,
}
use alpha_swarm.Orchestrator.Task.{Complexity}
use alpha_swarm.Inference.{
  BackendKind, same_backend, ModelInfo, ChatMessage, InferenceOptions, InferenceResponse, Numbers,
  or_else, any_ready, best_ollama_by_size, largest_ollama, find_model,
}
use alpha_swarm.Inference.Select.{any_ready-some}
use alpha_swarm.Inference.Listed.{IsFrom, largest_ollama-IsFrom, picked-IsFrom}
use alpha_swarm.Inference.Router.{
  InferenceRouter, Backends, indexed_from, list_models_indexed, picked, is_same_model, hosts_of,
  pick_among, pick_model_and_hosts, order_by_load,
}
use alpha_swarm.Inference.Router.Order.{order_by_load-IsOrdered}
use alpha_swarm.Inference.Router.Chat.{
  Attempt, answer_or, or_failed, try_hosts, fallback_model, fallback_from, automatic, or_automatic,
  chat,
}
use alpha_swarm.Inference.Router.Failover.{
  IsUp, NamesTell, Answered, answer_or-first, answer_or-second, count-In, In-count,
  same_backend_refl, indexed_from_lists, indexed_from_names, try_hosts_answers,
  fallback_from_answers,
}

abbrev pub IsOk : {W : Type 0} → Result Text InferenceResponse × InferenceRouter W → Type 0
IsOk result = (response : InferenceResponse) × (result.0 ≡ ok response)

or_failed-IsOk : {W : Type 0} (a : Attempt W) → Answered a → IsOk (or_failed a)
or_failed-IsOk (none, r) (response, e) = cc
or_failed-IsOk (some x, r) h = (x, refl)

or_else-some : {A : Type 0} (o p : Option A) (x : A) → p ≡ some x → (y : A) × (or_else o p ≡ some y)
or_else-some none p x e = (x, e)
or_else-some (some y) p x e = (y, refl)

module _ {W : Type 0} (numbers : Numbers) (backends : Backends W) where
  picked-some :
      (complexity : Complexity) (models : List ModelInfo) (m : ModelInfo)
      → In m models
      → m.ready ≡ true
      → (pick : ModelInfo) × (picked numbers backends complexity models ≡ some pick)
  unfolding picked
  picked-some Complexity.complex models m i h =
      let (x, e) = any_ready-some m models i h in
      let (y, f) = or_else-some (largest_ollama numbers models) (any_ready models) x e in
      let (z, g) =
        or_else-some (find_model models BackendKind.claude [])
          (or_else (largest_ollama numbers models) (any_ready models)) y f in
      or_else-some (find_model models BackendKind.claude (text "sonnet"))
        (or_else (find_model models BackendKind.claude [])
          (or_else (largest_ollama numbers models) (any_ready models)))
        z g
  picked-some Complexity.simple models m i h =
      let (x, e) = any_ready-some m models i h in
      or_else-some (best_ollama_by_size numbers models (λ size. true)) (any_ready models) x e
  picked-some Complexity.medium models m i h =
      let (x, e) = any_ready-some m models i h in
      or_else-some (best_ollama_by_size numbers models (λ size. true)) (any_ready models) x e

  In-order_by_load :
      (idx : ℕ) (hosts : List ℕ) (r : InferenceRouter W)
      → In idx hosts
      → In idx (order_by_load numbers backends hosts r).0
  In-order_by_load idx hosts r i =
      let (reordering, ascending, unchanged) = order_by_load-IsOrdered numbers backends r hosts in
      count-In idx (order_by_load numbers backends hosts r).0
        (omega (arith, reordering idx, In-count idx hosts i))

module _ {W : Type 0} (numbers : Numbers) (backends : Backends W) (messages : List ChatMessage)
    (options : InferenceOptions) where
  -- What the backend is asked for in the last loop.
  fallback_model-some :
      (models : List ModelInfo) (m : ModelInfo)
      → In m models
      → (f : ModelInfo) × (fallback_model numbers backends messages options models ≡ some f)
        × In f models
  unfolding fallback_model
  fallback_model-some [] m i = elim i [ ]
  fallback_model-some (x ∷ models) m i =
      from (largest_ollama numbers (x ∷ models)) (largest_ollama-IsFrom numbers (x ∷ models))
    where
      from :
          (o : Option ModelInfo)
          → IsFrom (x ∷ models) o
          → (f : ModelInfo) × (or_else o (some x) ≡ some f) × In f (x ∷ models)
      from none h = (x, refl, here refl)
      from (some y) h = (y, refl, h)

module _ {W : Type 0} (numbers : Numbers) (backends : Backends W) (messages : List ChatMessage)
    (options : InferenceOptions) (idx : ℕ) (models : List ModelInfo)
    (up : IsUp backends messages options idx models) (kind_of_name : Text → BackendKind)
    (names : NamesTell backends kind_of_name) where
  host_of :
      (indexed : List (ℕ × ModelInfo)) (m recommended : ModelInfo)
      → In (idx, m) indexed
      → m.name ≡ recommended.name
      → m.backend ≡ recommended.backend
      → In idx (hosts_of numbers backends indexed recommended)
  host_of indexed m recommended i e f =
      In-map_of (λ im. im.0) (idx, m) (filter (is_same_model numbers backends recommended) indexed)
        (In-filter_of (is_same_model numbers backends recommended) (idx, m) indexed i
          (ground (
            arith,
            text_eq_iff m.name recommended.name,
            e,
            subst (λ b. same_backend m.backend b ≡ true) f (same_backend_refl m.backend),
          )))

  automatic-IsOk :
      (indexed : List (ℕ × ModelInfo)) (recommended : ModelInfo) (r : InferenceRouter W)
      → ((m : ModelInfo) → In m models → In (idx, m) indexed)
      → ((im : ℕ × ModelInfo) → In im indexed → im.1.backend ≡ kind_of_name im.1.name)
      → recommended.backend ≡ kind_of_name recommended.name
      → IsOk (
          automatic numbers backends messages options
            (ok (recommended, hosts_of numbers backends indexed recommended))
            r)
  unfolding automatic
  automatic-IsOk indexed recommended r lists tell told =
      let hosts = hosts_of numbers backends indexed recommended in
      let ordered = order_by_load numbers backends hosts r in
      let (ready, listed, is_ready) = up.has_ready in
      let (m, is_fallback, m_in) =
        fallback_model-some numbers backends messages options models ready listed in
      let first =
        try_hosts numbers backends messages options recommended.name ordered.0 ordered.1 in
      let second =
        fallback_from numbers backends messages options recommended.name backends.backend_count 0 in
      or_failed-IsOk (answer_or first second) (elim (Bool-cases (text_eq m.name recommended.name)) [
        | inl same ↦
            let e = (text_eq_iff m.name recommended.name).0 same in
            answer_or-first first second (
              try_hosts_answers numbers backends messages options idx models up kind_of_name names
                recommended.name ordered.0 ordered.1
                (In-order_by_load numbers backends idx hosts r (
                  host_of indexed m recommended (lists m m_in) e
                    (tell (idx, m) (lists m m_in) ∙ ap kind_of_name e ∙ sym told))))
        | inr other ↦ answer_or-second first second λ r'.
            fallback_from_answers numbers backends messages options idx models up kind_of_name names
              recommended.name m backends.backend_count 0 r' is_fallback other (omega arith)
              (omega (arith, up.one_of_them))
      ])

  pick_among-some :
      (complexity : Complexity) (indexed : List (ℕ × ModelInfo)) (im : ℕ × ModelInfo)
      (recommended : ModelInfo)
      → In im indexed
      → pick_among numbers backends complexity indexed (some recommended)
        ≡ ok (recommended, hosts_of numbers backends indexed recommended)
  pick_among-some complexity [] im recommended i = elim i [ ]
  pick_among-some complexity (x ∷ indexed) im recommended i = refl

  or_automatic-IsOk :
      (complexity : Complexity) (a : Attempt W)
      → IsOk (or_automatic numbers backends messages options complexity a)
  unfolding or_automatic pick_model_and_hosts list_models_indexed
  or_automatic-IsOk complexity (some response, r) = (response, refl)
  or_automatic-IsOk complexity (none, r) =
      let listed = indexed_from numbers backends backends.backend_count 0 r in
      let all_models = map (λ im. im.1) listed.0 in
      let (ready, ready_in, is_ready) = up.has_ready in
      let lists : (m : ModelInfo) → In m models → In (idx, m) listed.0 = λ m.
        indexed_from_lists numbers backends messages options idx models up kind_of_name names
          backends.backend_count 0 r m (omega arith) (omega (arith, up.one_of_them)) in
      let tell : (im : ℕ × ModelInfo) → In im listed.0 → im.1.backend ≡ kind_of_name im.1.name =
        indexed_from_names numbers backends messages options idx models up kind_of_name names
          backends.backend_count 0 r in
      let (recommended, e) =
        picked-some numbers backends complexity all_models ready
          (In-map_of (λ im. im.1) (idx, ready) listed.0 (lists ready ready_in)) is_ready in
      let from : In recommended all_models =
        subst (IsFrom all_models) e (picked-IsFrom numbers backends complexity all_models) in
      let (im, im_in, f) = In-map (λ im. im.1) recommended listed.0 from in
      let told : recommended.backend ≡ kind_of_name recommended.name =
        subst (λ m. m.backend ≡ kind_of_name m.name) (sym f) (tell im im_in) in
      let chosen =
        ap (pick_among numbers backends complexity listed.0) e
        ∙ pick_among-some complexity listed.0 im recommended im_in in
      subst (λ pick. IsOk (automatic numbers backends messages options pick listed.1)) (sym chosen)
        (automatic-IsOk listed.0 recommended listed.1 lists tell told)

-- When some backend always lists the same models, one of them ready, and always answers, and a model's
-- name tells the kind of its backend, then a chat gets an answer, whatever the other backends do and
-- whatever is preferred.
pub chat-IsOk :
    {W : Type 0} (numbers : Numbers) (backends : Backends W) (messages : List ChatMessage)
    (options : InferenceOptions) (complexity : Complexity) (r : InferenceRouter W) (idx : ℕ)
    (models : List ModelInfo)
    → IsUp backends messages options idx models
    → (kind_of_name : Text → BackendKind) → NamesTell backends kind_of_name
    → IsOk (chat numbers backends messages options complexity r)
unfolding chat
chat-IsOk numbers backends messages options complexity r idx models up kind_of_name names =
    or_automatic-IsOk numbers backends messages options idx models up kind_of_name names complexity
      _
