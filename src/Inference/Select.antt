-- ===== src/Inference/Select.antt =====
-- What the choice of a model in crates/inference-client/src/router.rs finds.
use alpha_swarm.Prelude.{
  ℕ, ◌≤◌, List, [], ◌∷◌, filter, find, Option, none, some, Bool, true, false, ◌&&◌, ◌≡◌, refl, sym,
  subst, arith, Bool-cases, inl, inr, In, here, there, In-filter, In-filter_of, if◌then◌else◌,
  if_some-cases, not_both,
}
use alpha_swarm.Inference.{
  BackendKind, same_backend, find_model, ModelInfo, Numbers, size_of, is_code_model,
  is_ready_ollama, not_after, insert_by, sort_by, first_of, best_ollama_by_size, any_ready,
}

not_after_total :
    (numbers : Numbers) (a b : ModelInfo)
    → not_after numbers a b ≡ false
    → not_after numbers b a ≡ true
unfolding not_after
not_after_total numbers a b h = ground arith

not_after_trans :
    (numbers : Numbers) (a b c : ModelInfo)
    → not_after numbers a b ≡ true
    → not_after numbers b c ≡ true
    → not_after numbers a c ≡ true
unfolding not_after
not_after_trans numbers a b c h k = ground arith

not_after_refl : (numbers : Numbers) (a : ModelInfo) → not_after numbers a a ≡ true
unfolding not_after
not_after_refl numbers a = ground arith

-- It is a code model if the other is, and no larger if they are both code models or both not.
abbrev pub IsNoWorse : Numbers → ModelInfo → ModelInfo → Type 0
IsNoWorse numbers m other =
    (is_code_model numbers other.name ≡ true → is_code_model numbers m.name ≡ true)
    × (is_code_model numbers m.name ≡ is_code_model numbers other.name
        → size_of numbers m ≤ size_of numbers other)

not_after-IsNoWorse :
    (numbers : Numbers) (m other : ModelInfo)
    → not_after numbers m other ≡ true
    → IsNoWorse numbers m other
unfolding not_after
not_after-IsNoWorse numbers m other h = (λ code. ground arith, λ same. ground arith)

module _ {A : Type 0} (le : A → A → Bool) (total : (a b : A) → le a b ≡ false → le b a ≡ true)
    (trans : (a b c : A) → le a b ≡ true → le b c ≡ true → le a c ≡ true)
    (reflexive : (a : A) → le a a ≡ true) where
  -- The element that is in the list and before every other.
  abbrev pub IsLeast : A → List A → Type 0
  IsLeast m xs = In m xs × ((x : A) → In x xs → le m x ≡ true)

  IsLeast-cons : (x m : A) (xs : List A) → IsLeast m xs → IsLeast (if le x m then x else m) (x ∷ xs)
  IsLeast-cons x m xs (m_in, least) = elim (Bool-cases (le x m)) [
    | inl before ↦ rw before (here refl, first before)
    | inr after ↦ rw after (there m_in, second after)
  ]
    where
      first : le x m ≡ true → (y : A) → In y (x ∷ xs) → le x y ≡ true
      first h y (here e) = subst (λ z. le x z ≡ true) (sym e) (reflexive x)
      first h y (there i) = trans x m y h (least y i)

      second : le x m ≡ false → (y : A) → In y (x ∷ xs) → le m y ≡ true
      second h y (here e) = subst (λ z. le m z ≡ true) (sym e) (total x m h)
      second h y (there i) = least y i

  abbrev HeadIsLeast : List A → Option A → Type 0
  HeadIsLeast xs none = xs ≡ []
  HeadIsLeast xs (some m) = IsLeast m xs

  insert_by-HeadIsLeast :
      (x : A) (xs ys : List A)
      → HeadIsLeast xs (first_of ys)
      → HeadIsLeast (x ∷ xs) (first_of (insert_by le x ys))
  insert_by-HeadIsLeast x xs [] h = subst (λ zs. IsLeast x (x ∷ zs)) (sym h) (here refl, only)
    where
      only : (y : A) → In y (x ∷ []) → le x y ≡ true
      only y (there i) = elim i [ ]
      only y (here e) = subst (λ z. le x z ≡ true) (sym e) (reflexive x)
  insert_by-HeadIsLeast x xs (y ∷ ys) h =
      subst (HeadIsLeast (x ∷ xs)) (head_of (le x y)) (IsLeast-cons x y xs h)
    where
      head_of :
          (b : Bool)
          → some (if b then x else y) ≡ first_of (if b then x ∷ y ∷ ys else y ∷ insert_by le x ys)
      head_of true = refl
      head_of false = refl

  sort_by-HeadIsLeast : (xs : List A) → HeadIsLeast xs (first_of (sort_by le xs))
  sort_by-HeadIsLeast [] = refl
  sort_by-HeadIsLeast (x ∷ xs) = insert_by-HeadIsLeast x xs (sort_by le xs) (sort_by-HeadIsLeast xs)

module _ (numbers : Numbers) (models : List ModelInfo) (size_ok : ℕ → Bool) where
  abbrev pub IsCandidate : ModelInfo → Type 0
  IsCandidate m = In m models × (is_ready_ollama m ≡ true) × (size_ok (size_of numbers m) ≡ true)

  -- No other candidate is better: a code model goes before any other, and of two code models, or of
  -- two others, the smaller. None when there is no candidate.
  abbrev pub IsBest : Option ModelInfo → Type 0
  IsBest none = (m : ModelInfo) → IsCandidate m → ⊥
  IsBest (some m) =
      IsCandidate m × ((other : ModelInfo) → IsCandidate other → IsNoWorse numbers m other)

  abbrev candidates : List ModelInfo
  candidates = filter (λ m. size_ok (size_of numbers m)) (filter is_ready_ollama models)

  In-IsCandidate : (m : ModelInfo) → In m candidates → IsCandidate m
  In-IsCandidate m i =
      let (ready, size) =
        In-filter (λ m. size_ok (size_of numbers m)) m (filter is_ready_ollama models) i in
      let (listed, ollama) = In-filter is_ready_ollama m models ready in (listed, ollama, size)

  IsCandidate-In : (m : ModelInfo) → IsCandidate m → In m candidates
  IsCandidate-In m (listed, ollama, size) =
      In-filter_of (λ m. size_ok (size_of numbers m)) m (filter is_ready_ollama models)
        (In-filter_of is_ready_ollama m models listed ollama) size

  pub best_ollama_by_size-IsBest : IsBest (best_ollama_by_size numbers models size_ok)
  unfolding best_ollama_by_size
  best_ollama_by_size-IsBest = from (first_of (sort_by (not_after numbers) candidates)) (
      sort_by-HeadIsLeast (not_after numbers) (not_after_total numbers) (not_after_trans numbers)
        (not_after_refl numbers) candidates)
    where
      nothing : (m : ModelInfo) (xs : List ModelInfo) → In m xs → xs ≡ [] → ⊥
      nothing m [] i e = elim i [ ]
      nothing m (x ∷ xs) i e = cc

      from :
          (o : Option ModelInfo)
          → HeadIsLeast
              (not_after numbers)
              (not_after_total numbers)
              (not_after_trans numbers)
              (not_after_refl numbers)
              candidates
              o
          → IsBest o
      from none h = λ m c. nothing m candidates (IsCandidate-In m c) h
      from (some m) (m_in, least) = (
        In-IsCandidate m m_in,
        λ other c. not_after-IsNoWorse numbers m other (least other (IsCandidate-In other c)),
      )

pub find-In :
    {A : Type 0} (q : A → Bool) (m : A) (xs : List A) → find q xs ≡ some m → In m xs × (q m ≡ true)
find-In q m [] e = cc
find-In q m (x ∷ xs) e = elim (if_some-cases (q x) x m (find q xs) e) [
  | inl (holds, same) ↦ (here (sym same), subst (λ z. q z ≡ true) same holds)
  | inr (fails, later) ↦ let (i, h) = find-In q m xs later in (there i, h)
]

pub find-none :
    {A : Type 0} (q : A → Bool) (m : A) (xs : List A) → find q xs ≡ none → In m xs → q m ≡ false
find-none q m [] e i = elim i [ ]
find-none q m (x ∷ xs) e (here same) = elim (Bool-cases (q x)) [
  | inl holds ↦ ground arith
  | inr fails ↦ subst (λ z. q z ≡ false) (sym same) fails
]
find-none q m (x ∷ xs) e (there i) = elim (Bool-cases (q x)) [
  | inl holds ↦ ground arith
  | inr fails ↦ find-none q m xs (ground arith) i
]

-- A model of the backend that is ready.
abbrev pub is_ready_of : BackendKind → ModelInfo → Bool
is_ready_of backend m = same_backend m.backend backend && m.ready

-- Any model of the backend, when there is one.
abbrev pub IsAnyOf : BackendKind → List ModelInfo → Option ModelInfo → Type 0
IsAnyOf backend models none = (m : ModelInfo) → In m models → is_ready_of backend m ≡ false
IsAnyOf backend models (some m) = In m models × (is_ready_of backend m ≡ true)

find_ready-IsAnyOf :
    (backend : BackendKind) (models : List ModelInfo) (o : Option ModelInfo)
    → find (λ m. true) (filter (is_ready_of backend) models) ≡ o
    → IsAnyOf backend models o
find_ready-IsAnyOf backend models none e = λ m i. elim (Bool-cases (is_ready_of backend m)) [
  | inl ready ↦
      let missed =
        find-none (λ m. true) m (filter (is_ready_of backend) models) e
          (In-filter_of (is_ready_of backend) m models i ready) in
      elim (not_both true refl missed) [ ]
  | inr other ↦ other
]
find_ready-IsAnyOf backend models (some m) e =
    let (listed, holds) = find-In (λ m. true) m (filter (is_ready_of backend) models) e in
    In-filter (is_ready_of backend) m models listed

pub find_model-IsAnyOf :
    (backend : BackendKind) (models : List ModelInfo)
    → IsAnyOf backend models (find_model models backend [])
unfolding find_model
find_model-IsAnyOf backend models =
    find_ready-IsAnyOf backend models (find (λ m. true) (filter (is_ready_of backend) models)) refl

pub any_ready-some :
    (m : ModelInfo) (models : List ModelInfo)
    → In m models
    → m.ready ≡ true
    → (pick : ModelInfo) × (any_ready models ≡ some pick)
unfolding any_ready
any_ready-some m [] i h = elim i [ ]
any_ready-some m (x ∷ models) (here e) h = (x, ground arith)
any_ready-some m (x ∷ models) (there i) h = elim (Bool-cases x.ready) [
  | inl is_ready ↦ (x, ground arith)
  | inr not_ready ↦ let (pick, e) = any_ready-some m models i h in (pick, ground arith)
]
