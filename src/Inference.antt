-- ===== src/Inference.antt =====
-- crates/inference-client/src/types.rs and the choice of a model in router.rs.
pub mod Listed
pub mod Select
pub mod Router
mod Samples
mod Witnesses
use alpha_swarm.Prelude.{
  ℕ, ◌+◌, Text, text, text_eq, List, [], ◌∷◌, map, filter, find, Option, none, some, Bool, true,
  false, not, ◌&&◌, ◌||◌, if◌then◌else◌, starts_with, text_contains, trim, ltb, leb, nat_eq,
}

pub data BackendKind : Type 0 where
  claude ollama : BackendKind

abbrev pub same_backend : BackendKind → BackendKind → Bool
same_backend claude claude = true
same_backend ollama ollama = true
same_backend _ _ = false

pub record ModelInfo : Type 0 where
  pub name : Text
  pub backend : BackendKind
  pub family : Text
  pub parameter_size : Text
  pub context_window : ℕ
  pub ready : Bool

pub record ChatMessage : Type 0 where
  pub role : Text
  pub content : Text

-- The temperature is an `f32`, here its bits.
pub record InferenceOptions : Type 0 where
  pub preferred_backend : Option BackendKind
  pub preferred_model : Option Text
  pub temperature : Option ℕ
  pub max_tokens : Option ℕ
  pub stop : Option (List Text)

pub record InferenceResponse : Type 0 where
  pub content : Text
  pub model : Text
  pub backend : BackendKind
  pub tokens_input : ℕ
  pub tokens_output : ℕ
  pub cached_tokens : ℕ
  pub duration_ms : ℕ

-- What the standard library does to a text: `to_lowercase`, and `parse::<f32>` with `as u32` behind it.
pub record Numbers : Type 0 where
  pub lowercase : Text → Text
  pub float_as_u32 : Text → Option ℕ

abbrev or_zero : Option ℕ → ℕ
or_zero none = 0
or_zero (some n) = n

-- `trim_end_matches('b')`
abbrev trim_end_b : Text → Text
trim_end_b [] = []
trim_end_b (b ∷ t) = elim (trim_end_b t) [
  | [] ↦ if nat_eq b b'b' then [] else b ∷ []
  | c ∷ u ↦ b ∷ c ∷ u
]

unfoldable pub parse_param_size_b : Numbers → Text → ℕ
unfolding trim
parse_param_size_b numbers s =
    or_zero (numbers.float_as_u32 (trim_end_b (numbers.lowercase (trim s))))

unfoldable pub is_code_model : Numbers → Text → Bool
unfolding text_contains
is_code_model numbers name =
    let n = numbers.lowercase name in
    text_contains n (text "code")
    || (text_contains n (text "coder")
        || (text_contains n (text "starcoder") || text_contains n (text "deepseek")))

abbrev pub size_of : Numbers → ModelInfo → ℕ
size_of numbers m = parse_param_size_b numbers m.parameter_size

abbrev pub is_ready_ollama : ModelInfo → Bool
is_ready_ollama m = same_backend m.backend BackendKind.ollama && m.ready

-- The comparison of `best_ollama_by_size`: `a` is not after `b`.
unfoldable pub not_after : Numbers → ModelInfo → ModelInfo → Bool
unfolding is_code_model parse_param_size_b
not_after numbers a b =
    let a_code = is_code_model numbers a.name in
    let b_code = is_code_model numbers b.name in
    if a_code
    then if b_code then leb (size_of numbers a) (size_of numbers b) else true
    else if b_code
    then false
    else leb (size_of numbers a) (size_of numbers b)

-- A stable sort, as `sort_by` is.
abbrev pub insert_by {ℓ} : {A : Type ℓ} → (A → A → Bool) → A → List A → List A
insert_by le x [] = x ∷ []
insert_by le x (y ∷ ys) = if le x y then x ∷ y ∷ ys else y ∷ insert_by le x ys

abbrev pub sort_by {ℓ} : {A : Type ℓ} → (A → A → Bool) → List A → List A
sort_by le [] = []
sort_by le (x ∷ xs) = insert_by le x (sort_by le xs)

abbrev pub first_of {ℓ} : {A : Type ℓ} → List A → Option A
first_of [] = none
first_of (x ∷ xs) = some x

unfoldable pub best_ollama_by_size : Numbers → List ModelInfo → (ℕ → Bool) → Option ModelInfo
unfolding not_after parse_param_size_b
best_ollama_by_size numbers models size_ok = first_of (
    sort_by (not_after numbers)
      (filter (λ m. size_ok (size_of numbers m)) (filter is_ready_ollama models)))

abbrev pub larger_of {ℓ} : {A : Type ℓ} → (A → ℕ) → A → Option A → Option A
larger_of key x none = some x
larger_of key x (some y) = if leb (key x) (key y) then some y else some x

-- `max_by_key`: the last of the greatest.
abbrev pub max_by {ℓ} : {A : Type ℓ} → (A → ℕ) → List A → Option A
max_by key [] = none
max_by key (x ∷ xs) = larger_of key x (max_by key xs)

abbrev pub preferred_code_models : List Text
preferred_code_models = text "deepseek-coder" ∷ text "qwen2.5-coder" ∷ text "qwen" ∷ []

abbrev pub filter_some {ℓ} : {A : Type ℓ} → List (Option A) → List A
filter_some [] = []
filter_some (none ∷ os) = filter_some os
filter_some (some a ∷ os) = a ∷ filter_some os

abbrev pub or_else {ℓ} : {A : Type ℓ} → Option A → Option A → Option A
or_else none o = o
or_else (some a) o = some a

unfoldable pub largest_ollama : Numbers → List ModelInfo → Option ModelInfo
unfolding parse_param_size_b
largest_ollama numbers models =
    let ollama_ready = filter is_ready_ollama models in
    let best_of_prefix : Text → Option ModelInfo =
      λ prefix. max_by (size_of numbers) (filter (λ m. starts_with m.name prefix) ollama_ready) in
    or_else (max_by (size_of numbers) (filter_some (map best_of_prefix preferred_code_models)))
      (max_by (size_of numbers) ollama_ready)

abbrev pub is_empty : Text → Bool
is_empty [] = true
is_empty (b ∷ t) = false

unfoldable pub find_model : List ModelInfo → BackendKind → Text → Option ModelInfo
unfolding text_contains
find_model models backend name_contains =
    find (λ m. is_empty name_contains || text_contains m.name name_contains)
      (filter (λ m. same_backend m.backend backend && m.ready) models)

unfoldable pub any_ready : List ModelInfo → Option ModelInfo
any_ready models = find (λ m. m.ready) models
