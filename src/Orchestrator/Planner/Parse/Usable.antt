-- ===== src/Orchestrator/Planner/Parse/Usable.antt =====
-- What the tasks that `parse_plan` validates satisfy.
use alpha_swarm.Prelude.{
  ℕ, zero, suc, ◌≤◌, Text, text, contains, List, [], ◌∷◌, map, filter, find, any, take, length,
  Option, none, some, Bool, true, false, not, ◌≡◌, refl, sym, ◌∙◌, ap, subst, arith, Bool-cases,
  inl, inr, ◌⊎◌, In, here, there, In-map, In-filter, In-contains, text_contains, rsplit_once,
  starts_with, if_some-cases, ◌++◌, split_at_byte,
}
use alpha_swarm.Orchestrator.Task.{SubTask}
use alpha_swarm.Orchestrator.Planner.Cycle.Exact.{DependsOn}
use alpha_swarm.Orchestrator.Planner.Paths.{
  resolved_at, first_of, resolve_path, keep_file, validate_files,
}
use alpha_swarm.Orchestrator.Planner.Parse.{is_empty, validated, max_tasks}

-- A file of the repository, or a path without a pattern that can be a new file.
abbrev pub IsUsable : List Text → Text → Type 0
IsUsable repo_files f =
    (contains repo_files f ≡ true)
    ⊎ ((text_contains f (text "*") ≡ false)
        × (text_contains f (text ".") ≡ true)
        × (text_contains f (text " ") ≡ false))

pub record IsPlan (repo_files : List Text) (tasks : List SubTask) : Type 0 where
  pub some_task : is_empty tasks ≡ false
  pub few : length tasks ≤ max_tasks
  pub has_files : (t : SubTask) → In t tasks → is_empty t.files ≡ false
  pub usable : (t : SubTask) → In t tasks → (f : Text) → In f t.files → IsUsable repo_files f
  pub acyclic : (n : Text) → DependsOn tasks n n → ⊥

In-find : {A : Type 0} (q : A → Bool) (m : A) (xs : List A) → find q xs ≡ some m → In m xs
In-find q m [] e = cc
In-find q m (x ∷ xs) e = elim (if_some-cases (q x) x m (find q xs) e) [
  | inl (same, is_m) ↦ here (sym is_m)
  | inr (other, later) ↦ there (In-find q m xs later)
]

-- A path resolves to itself or to a file of the repository.
resolve_path-cases :
    (repo_files : List Text) (f : Text)
    → (resolve_path repo_files f ≡ f) ⊎ (contains repo_files (resolve_path repo_files f) ≡ true)
unfolding resolve_path
resolve_path-cases repo_files f = elim (Bool-cases (contains repo_files f)) [
  | inl known ↦ inl (rw (resolve_path, known) refl)
  | inr new ↦ rw (resolve_path, new) (at_split (rsplit_once b'/' f))
]
  where
    found :
        (prefix : Text) (o : Option Text)
        → find (λ rf. starts_with rf prefix) repo_files ≡ o
        → ((elim o [ some m ↦ m | none ↦ f ]) ≡ f)
          ⊎ (contains repo_files (elim o [ some m ↦ m | none ↦ f ]) ≡ true)
    found prefix none e = inl refl
    found prefix (some m) e =
        inr (In-contains repo_files m (In-find (λ rf. starts_with rf prefix) m repo_files e))

    prefix_of : Text × Text → Text
    prefix_of (dir, name) = dir ++ (text "/" ++ (first_of (split_at_byte b'.' name) ++ text "."))

    at_split :
        (o : Option (Text × Text))
        → (resolved_at repo_files f o ≡ f)
          ⊎ (contains repo_files (resolved_at repo_files f o) ≡ true)
    at_split none = inl refl
    at_split (some (dir, name)) =
        found (prefix_of (dir, name))
          (find (λ rf. starts_with rf (prefix_of (dir, name))) repo_files) refl

keep_file_usable :
    (repo_files : List Text) (has_existing : Bool) (f : Text)
    → keep_file repo_files has_existing f ≡ true
    → (contains repo_files f ≡ true)
      ⊎ ((text_contains f (text ".") ≡ true) × (text_contains f (text " ") ≡ false))
unfolding keep_file
keep_file_usable repo_files has_existing f h = ground arith

validate_files-IsUsable :
    (repo_files : List Text) (t : SubTask) (f : Text)
    → In f (validate_files repo_files t).files
    → IsUsable repo_files f
unfolding validate_files
validate_files-IsUsable repo_files t f m =
    let exact = filter (λ f. not (text_contains f (text "*"))) t.files in
    let resolved = map (resolve_path repo_files) exact in
    let has_existing = any (contains repo_files) resolved in
    let (listed, kept) = In-filter (keep_file repo_files has_existing) f resolved m in
    let (g, there_is, is_f) = In-map (resolve_path repo_files) f exact listed in
    let (own, plain) = In-filter (λ f. not (text_contains f (text "*"))) g t.files there_is in
    elim (keep_file_usable repo_files has_existing f kept) [
      | inl known ↦ inl known
      | inr (dotted, solid) ↦ elim (resolve_path-cases repo_files g) [
        | inl same ↦ inr (
          subst (λ k. text_contains k (text "*") ≡ false) (sym (is_f ∙ same)) (ground arith),
          dotted,
          solid,
        )
        | inr known ↦ inl (subst (λ k. contains repo_files k ≡ true) (sym is_f) known)
      ]
    ]

length-take : {A : Type 0} (n : ℕ) (xs : List A) → length (take n xs) ≤ n
length-take zero xs = omega arith
length-take (suc n) [] = omega arith
length-take (suc n) (x ∷ xs) = omega (arith, length-take n xs)

length-filter : {A : Type 0} (q : A → Bool) (xs : List A) → length (filter q xs) ≤ length xs
length-filter q [] = omega arith
length-filter q (x ∷ xs) = ground (arith, length-filter q xs)

length-map : {A B : Type 0} (g : A → B) (xs : List A) → length (map g xs) ≡ length xs
length-map g [] = refl
length-map g (x ∷ xs) = ap suc (length-map g xs)

pub validated-IsPlan :
    (repo_files : List Text) (tasks : List SubTask)
    → is_empty (validated repo_files tasks) ≡ false
    → ((n : Text) → DependsOn (validated repo_files tasks) n n → ⊥)
    → IsPlan repo_files (validated repo_files tasks)
unfolding validated
validated-IsPlan repo_files tasks some_task acyclic = record {
  some_task = some_task;
  few = omega (
    arith,
    length-filter (λ t. not (is_empty t.files)) checked,
    length-map (validate_files repo_files) (take max_tasks tasks),
    length-take max_tasks tasks,
  );
  has_files = λ t m.
      let (listed, kept) = In-filter (λ t. not (is_empty t.files)) t checked m in ground arith;
  usable = λ t m f i.
      let (listed, kept) = In-filter (λ t. not (is_empty t.files)) t checked m in
      let (u, there_is, e) = In-map (validate_files repo_files) t (take max_tasks tasks) listed in
      validate_files-IsUsable repo_files u f (subst (λ v. In f v.files) e i);
  acyclic = acyclic;
}
  where
    checked : List SubTask
    checked = map (validate_files repo_files) (take max_tasks tasks)
