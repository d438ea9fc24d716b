-- ===== src/Inference/Listed.antt =====
-- The model that crates/inference-client/src/router.rs picks is one of the models it was given.
use alpha_swarm.Prelude.{
  ℕ, Text, text, List, [], ◌∷◌, map, filter, find, Option, none, some, Bool, true, ◌≡◌, refl, sym,
  ap, subst, Bool-cases, inl, inr, In, here, there, In-filter, In-map, leb, starts_with,
  text_contains, ◌&&◌, ◌||◌,
}
use alpha_swarm.Orchestrator.Task.{Complexity}
use alpha_swarm.Inference.{
  BackendKind, ModelInfo, Numbers, best_ollama_by_size, filter_some, find_model, any_ready,
  is_empty, is_ready_ollama, largest_ollama, larger_of, max_by, or_else, preferred_code_models,
  same_backend, size_of,
}
use alpha_swarm.Inference.Select.{IsBest, best_ollama_by_size-IsBest, find-In}
use alpha_swarm.Inference.Router.{Backends, picked}

-- What is found, if anything, is in the list.
abbrev pub IsFrom : {A : Type 0} → List A → Option A → Type 0
IsFrom xs none = Unit
IsFrom xs (some x) = In x xs

or_else-IsFrom :
    {A : Type 0} (xs : List A) (o p : Option A)
    → IsFrom xs o
    → IsFrom xs p
    → IsFrom xs (or_else o p)
or_else-IsFrom xs none p h k = k
or_else-IsFrom xs (some x) p h k = h

find-IsFrom : {A : Type 0} (q : A → Bool) (xs : List A) → IsFrom xs (find q xs)
find-IsFrom {A = A} q xs = from (find q xs) refl
  where
    from : (o : Option A) → find q xs ≡ o → IsFrom xs o
    from none e = tt
    from (some x) e = (find-In q x xs e).0

IsFrom-there : {A : Type 0} (x : A) (xs : List A) (o : Option A) → IsFrom xs o → IsFrom (x ∷ xs) o
IsFrom-there x xs none h = tt
IsFrom-there x xs (some y) h = there h

larger_of-IsFrom :
    {A : Type 0} (key : A → ℕ) (x : A) (xs : List A) (o : Option A)
    → IsFrom xs o
    → IsFrom (x ∷ xs) (larger_of key x o)
larger_of-IsFrom key x xs none h = here refl
larger_of-IsFrom key x xs (some y) h = elim (Bool-cases (leb (key x) (key y))) [
  | inl less ↦ rw less (there h)
  | inr more ↦ rw more (here refl)
]

max_by-IsFrom : {A : Type 0} (key : A → ℕ) (xs : List A) → IsFrom xs (max_by key xs)
max_by-IsFrom key [] = tt
max_by-IsFrom key (x ∷ xs) = larger_of-IsFrom key x xs (max_by key xs) (max_by-IsFrom key xs)

In-filter_some :
    {A : Type 0} (x : A) (os : List (Option A)) → In x (filter_some os) → In (some x) os
In-filter_some x [] i = elim i [ ]
In-filter_some x (none ∷ os) i = there (In-filter_some x os i)
In-filter_some x (some y ∷ os) (here e) = here (ap some e)
In-filter_some x (some y ∷ os) (there i) = there (In-filter_some x os i)

IsFrom-narrow :
    {A : Type 0} (xs ys : List A) (o : Option A)
    → ((x : A) → In x xs → In x ys)
    → IsFrom xs o
    → IsFrom ys o
IsFrom-narrow xs ys none f h = tt
IsFrom-narrow xs ys (some x) f h = f x h

find_model-IsFrom :
    (models : List ModelInfo) (backend : BackendKind) (fragment : Text)
    → IsFrom models (find_model models backend fragment)
unfolding find_model
find_model-IsFrom models backend fragment =
    let ready = filter (λ m. same_backend m.backend backend && m.ready) models in
    IsFrom-narrow ready models
      (find (λ m. is_empty fragment || text_contains m.name fragment) ready)
      (λ m i. (In-filter (λ m. same_backend m.backend backend && m.ready) m models i).0)
      (find-IsFrom (λ m. is_empty fragment || text_contains m.name fragment) ready)

any_ready-IsFrom : (models : List ModelInfo) → IsFrom models (any_ready models)
unfolding any_ready
any_ready-IsFrom models = find-IsFrom (λ m. m.ready) models

best_of : Numbers → List ModelInfo → Text → Option ModelInfo
best_of numbers models prefix =
    max_by (size_of numbers)
      (filter (λ m. starts_with m.name prefix) (filter is_ready_ollama models))

largest_of_preferred :
    (numbers : Numbers) (models : List ModelInfo) (prefixes : List Text) (m : ModelInfo)
    → In m (filter_some (map (best_of numbers models) prefixes))
    → In m (filter is_ready_ollama models)
unfolding best_of
largest_of_preferred numbers models prefixes m i =
    let ready = filter is_ready_ollama models in
    let (prefix, listed, same) =
      In-map (best_of numbers models) (some m) prefixes
        (In-filter_some m (map (best_of numbers models) prefixes) i) in
    (In-filter (λ m. starts_with m.name prefix) m ready
      (subst (IsFrom (filter (λ m. starts_with m.name prefix) ready)) (sym same)
        (max_by-IsFrom (size_of numbers) (filter (λ m. starts_with m.name prefix) ready)))).0

pub largest_ollama-IsFrom :
    (numbers : Numbers) (models : List ModelInfo) → IsFrom models (largest_ollama numbers models)
unfolding largest_ollama best_of
largest_ollama-IsFrom numbers models =
    let ready = filter is_ready_ollama models in
    let preferred = filter_some (map (best_of numbers models) preferred_code_models) in
    IsFrom-narrow ready models
      (or_else (max_by (size_of numbers) preferred) (max_by (size_of numbers) ready))
      (λ m i. (In-filter is_ready_ollama m models i).0)
      (or_else-IsFrom ready (max_by (size_of numbers) preferred) (max_by (size_of numbers) ready)
        (IsFrom-narrow preferred ready (max_by (size_of numbers) preferred)
          (largest_of_preferred numbers models preferred_code_models)
          (max_by-IsFrom (size_of numbers) preferred))
        (max_by-IsFrom (size_of numbers) ready))

best-IsFrom :
    (numbers : Numbers) (models : List ModelInfo) (size_ok : ℕ → Bool)
    → IsFrom models (best_ollama_by_size numbers models size_ok)
best-IsFrom numbers models size_ok =
    from (best_ollama_by_size numbers models size_ok)
      (best_ollama_by_size-IsBest numbers models size_ok)
  where
    from : (o : Option ModelInfo) → IsBest numbers models size_ok o → IsFrom models o
    from none h = tt
    from (some m) h = h.0.0

pub picked-IsFrom :
    {W : Type 0} (numbers : Numbers) (backends : Backends W) (complexity : Complexity)
    (models : List ModelInfo)
    → IsFrom models (picked numbers backends complexity models)
unfolding picked
picked-IsFrom numbers backends Complexity.complex models =
    or_else-IsFrom models (find_model models BackendKind.claude (text "sonnet")) _
      (find_model-IsFrom models BackendKind.claude (text "sonnet"))
      (or_else-IsFrom models (find_model models BackendKind.claude []) _
        (find_model-IsFrom models BackendKind.claude [])
        (or_else-IsFrom models (largest_ollama numbers models) (any_ready models)
          (largest_ollama-IsFrom numbers models) (any_ready-IsFrom models)))
picked-IsFrom numbers backends Complexity.simple models =
    or_else-IsFrom models (best_ollama_by_size numbers models (λ size. true)) (any_ready models)
      (best-IsFrom numbers models (λ size. true)) (any_ready-IsFrom models)
picked-IsFrom numbers backends Complexity.medium models =
    or_else-IsFrom models (best_ollama_by_size numbers models (λ size. true)) (any_ready models)
      (best-IsFrom numbers models (λ size. true)) (any_ready-IsFrom models)
