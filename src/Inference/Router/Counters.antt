-- ===== src/Inference/Router/Counters.antt =====
-- The counters of requests in flight across `chat` of crates/inference-client/src/router.rs.
use alpha_swarm.Prelude.{
  ℕ, zero, suc, ◌+◌, ◌-◌, ◌%◌, ◌^◌, ◌<◌, Text, text_eq, List, [], ◌∷◌, find, Option, none, some,
  ◌≡◌, refl, ◌∙◌, ap, arith, ltb, Bool-cases, inl, inr, Result, ok, err,
}
use alpha_swarm.Orchestrator.Task.{Complexity}
use alpha_swarm.Inference.{BackendKind, ModelInfo, ChatMessage, InferenceOptions, Numbers}
use alpha_swarm.Inference.Router.{
  InferenceRouter, Backends, or_no_models, add_at, indexed_from, list_models_indexed,
  pick_model_and_hosts, order_by_load,
}
use alpha_swarm.Inference.Router.Order.{order_by_load-IsOrdered}
use alpha_swarm.Inference.Router.Chat.{
  Attempt, answer_or, or_failed, guarded, at_host, at_model, first_of_kind, ask_index, at_backend,
  try_hosts, fallback_model, fallback_at, fallback_from, automatic, or_automatic, chat, or_default,
}

module _ {W : Type 0} where
  -- The counters are values of a 64-bit `usize`.
  abbrev pub AreWords : InferenceRouter W → Type 0
  AreWords r = (i : ℕ) → r.in_flight i < 2 ^ 64

  abbrev pub SameCounters : InferenceRouter W → InferenceRouter W → Type 0
  SameCounters r r' = (i : ℕ) → r'.in_flight i ≡ r.in_flight i

  abbrev pub Keeps : {X : Type 0} → (InferenceRouter W → X × InferenceRouter W) → Type 0
  Keeps f = (r : InferenceRouter W) → AreWords r → SameCounters r (f r).1

  AreWords-SameCounters : (r r' : InferenceRouter W) → AreWords r → SameCounters r r' → AreWords r'
  AreWords-SameCounters r r' h e i = omega (arith, h i, e i)

  -- First one step and then another.
  then_kept :
      {X : Type 0} (r r' : InferenceRouter W) (f : InferenceRouter W → X × InferenceRouter W)
      → AreWords r
      → SameCounters r r'
      → Keeps f
      → SameCounters r (f r').1
  then_kept r r' f h e k i = k r' (AreWords-SameCounters r r' h e) i ∙ e i

  answer_or-SameCounters :
      (r : InferenceRouter W) (a : Attempt W) (next : InferenceRouter W → Attempt W)
      → AreWords r
      → SameCounters r a.1
      → Keeps next
      → SameCounters r (answer_or a next).1
  answer_or-SameCounters r (none, r') next h e k = then_kept r r' next h e k
  answer_or-SameCounters r (some response, r') next h e k = e

abbrev pub CallsKeep : {W : Type 0} → Backends W → Type 0
CallsKeep backends =
    ((idx : ℕ) → Keeps (backends.models_of idx))
    × ((idx : ℕ) (model : Text) (messages : List ChatMessage) (options : InferenceOptions)
        → Keeps (backends.ask idx model messages options))

up_and_down : (c : ℕ) → c < 2 ^ 64 → ((c + 1) % 2 ^ 64 + (2 ^ 64 - 1)) % 2 ^ 64 ≡ c
up_and_down c h = omega (arith, h)

wraps : (c : ℕ) → (c + 1) % 2 ^ 64 < 2 ^ 64
wraps c = omega arith

module _ {W : Type 0} (numbers : Numbers) (backends : Backends W) (keep : CallsKeep backends)
    (messages : List ChatMessage) (options : InferenceOptions) where
  indexed_from-Keeps : (left idx : ℕ) → Keeps (indexed_from numbers backends left idx)
  unfolding indexed_from
  indexed_from-Keeps zero idx r h = λ i. refl
  indexed_from-Keeps (suc left) idx r h =
      then_kept r (backends.models_of idx r).1 (indexed_from numbers backends left (suc idx)) h
        (keep.0 idx r h) (indexed_from-Keeps left (suc idx))

  list_models_indexed-Keeps : Keeps (list_models_indexed numbers backends)
  unfolding list_models_indexed
  list_models_indexed-Keeps = indexed_from-Keeps backends.backend_count 0

  guarded-Keeps :
      (idx : ℕ) (model : Text) → Keeps (guarded numbers backends messages options idx model)
  unfolding guarded
  guarded-Keeps idx model r h i =
      let r1 = record r { in_flight = add_at idx 1 r.in_flight } in
      let words : AreWords r1 = λ j. ground (arith, h j, wraps (r.in_flight j)) in
      let kept = keep.1 idx model messages options r1 words i in
      ground (arith, kept, up_and_down (r.in_flight i) (h i))

  at_host-Keeps :
      (model : Text) (o : Option (ℕ × ModelInfo))
      → Keeps (at_host numbers backends messages options model o)
  unfolding at_host
  at_host-Keeps model none r h = λ i. refl
  at_host-Keeps model (some (idx, m)) r h = guarded-Keeps idx model r h

  at_model-Keeps : (o : Option Text) → Keeps (at_model numbers backends messages options o)
  unfolding at_model
  at_model-Keeps none r h = λ i. refl
  at_model-Keeps (some model) r h = elim (Bool-cases (ltb 1 backends.backend_count)) [
    | inl several ↦
        let listed = list_models_indexed numbers backends r in
        rw several (
          then_kept r listed.1
            (at_host numbers backends messages options model
              (find (λ im. text_eq im.1.name model) listed.0))
            h (list_models_indexed-Keeps r h)
            (at_host-Keeps model (find (λ im. text_eq im.1.name model) listed.0)))
    | inr single ↦ rw single (λ i. refl)
  ]

  ask_index-Keeps :
      (model : Text) (o : Option ℕ) → Keeps (ask_index numbers backends messages options model o)
  unfolding ask_index
  ask_index-Keeps model none r h = λ i. refl
  ask_index-Keeps model (some idx) r h = keep.1 idx model messages options r h

  at_backend-Keeps :
      (o : Option BackendKind) → Keeps (at_backend numbers backends messages options o)
  unfolding at_backend
  at_backend-Keeps none r h = λ i. refl
  at_backend-Keeps (some kind) r h =
      ask_index-Keeps (or_default kind options.preferred_model)
        (first_of_kind numbers backends messages options backends.backend_count 0 kind) r h

  try_hosts-Keeps :
      (model : Text) (hosts : List ℕ)
      → Keeps (try_hosts numbers backends messages options model hosts)
  unfolding try_hosts
  try_hosts-Keeps model [] r h = λ i. refl
  try_hosts-Keeps model (idx ∷ hosts) r h =
      answer_or-SameCounters r (guarded numbers backends messages options idx model r)
        (try_hosts numbers backends messages options model hosts) h (guarded-Keeps idx model r h)
        (try_hosts-Keeps model hosts)

  fallback_at-Keeps :
      (idx : ℕ) (recommended : Text) (o : Option ModelInfo) (next : InferenceRouter W → Attempt W)
      → Keeps next
      → Keeps (fallback_at numbers backends messages options idx recommended o next)
  unfolding fallback_at
  fallback_at-Keeps idx recommended none next k r h = k r h
  fallback_at-Keeps idx recommended (some m) next k r h =
      elim (Bool-cases (text_eq m.name recommended)) [
        | inl tried ↦ rw tried (k r h)
        | inr new ↦ rw new (
            answer_or-SameCounters r (backends.ask idx m.name messages options r) next h
              (keep.1 idx m.name messages options r h) k)
      ]

  fallback_from-Keeps :
      (recommended : Text) (left idx : ℕ)
      → Keeps (fallback_from numbers backends messages options recommended left idx)
  unfolding fallback_from
  fallback_from-Keeps recommended zero idx r h = λ i. refl
  fallback_from-Keeps recommended (suc left) idx r h =
      let listed = backends.models_of idx r in
      let fallback = fallback_model numbers backends messages options (or_no_models listed.0) in
      let next = fallback_from numbers backends messages options recommended left (suc idx) in
      then_kept r listed.1
        (fallback_at numbers backends messages options idx recommended fallback next) h
        (keep.0 idx r h)
        (fallback_at-Keeps idx recommended fallback next
          (fallback_from-Keeps recommended left (suc idx)))

  or_failed-SameCounters :
      (r : InferenceRouter W) (a : Attempt W) → SameCounters r a.1 → SameCounters r (or_failed a).1
  or_failed-SameCounters r (none, r') e = e
  or_failed-SameCounters r (some response, r') e = e

  automatic-Keeps :
      (pick : Result Text (ModelInfo × List ℕ))
      → Keeps (automatic numbers backends messages options pick)
  unfolding automatic
  automatic-Keeps (err e) r h = λ i. refl
  automatic-Keeps (ok (recommended, hosts)) r h =
      let ordered = order_by_load numbers backends hosts r in
      let (reordering, ascending, unchanged) = order_by_load-IsOrdered numbers backends r hosts in
      let same : SameCounters r ordered.1 = λ i. ap (λ c. c i) unchanged in
      let tried = try_hosts numbers backends messages options recommended.name ordered.0 in
      let last =
        fallback_from numbers backends messages options recommended.name backends.backend_count 0 in
      or_failed-SameCounters r (answer_or (tried ordered.1) last) (
        answer_or-SameCounters r (tried ordered.1) last h
          (then_kept r ordered.1 tried h same (try_hosts-Keeps recommended.name ordered.0))
          (fallback_from-Keeps recommended.name backends.backend_count 0))

  pick_model_and_hosts-Keeps :
      (complexity : Complexity) → Keeps (pick_model_and_hosts numbers backends complexity)
  unfolding pick_model_and_hosts
  pick_model_and_hosts-Keeps complexity = list_models_indexed-Keeps

  or_automatic-SameCounters :
      (complexity : Complexity) (r : InferenceRouter W) (a : Attempt W)
      → AreWords r
      → SameCounters r a.1
      → SameCounters r (or_automatic numbers backends messages options complexity a).1
  unfolding or_automatic
  or_automatic-SameCounters complexity r (some response, r') h e = e
  or_automatic-SameCounters complexity r (none, r') h e =
      let pick = pick_model_and_hosts numbers backends complexity r' in
      let h' = AreWords-SameCounters r r' h e in
      λ i.
        then_kept r' pick.1 (automatic numbers backends messages options pick.0) h'
          (pick_model_and_hosts-Keeps complexity r' h') (automatic-Keeps pick.0) i
        ∙ e i

-- Whatever its backends answer, a chat leaves every counter of requests in flight as it was, on each
-- way out, when the counters are below 2 ^ 64 and the calls themselves leave them as they find them.
pub chat-SameCounters :
    {W : Type 0} (numbers : Numbers) (backends : Backends W) (messages : List ChatMessage)
    (options : InferenceOptions) (complexity : Complexity) (r : InferenceRouter W)
    → CallsKeep backends
    → AreWords r
    → SameCounters r (chat numbers backends messages options complexity r).1
unfolding chat
chat-SameCounters numbers backends messages options complexity r keep h =
    let first = at_model numbers backends messages options options.preferred_model in
    let second = at_backend numbers backends messages options options.preferred_backend in
    or_automatic-SameCounters numbers backends keep messages options complexity r
      (answer_or (first r) second) h
      (answer_or-SameCounters r (first r) second h
        (at_model-Keeps numbers backends keep messages options options.preferred_model r h)
        (at_backend-Keeps numbers backends keep messages options options.preferred_backend))
