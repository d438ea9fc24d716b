-- ===== src/Orchestrator/Planner/Scope/Guard.antt =====
-- What the scope guard keeps: when the goal names files of the repository, no task lists another
-- file of the repository. The guard does not look at the path of a task's direct edit.
use alpha_swarm.Prelude.{
  Text, contains, List, [], ◌∷◌, map, Bool, true, false, not, ◌≡◌, refl, sym, ◌∙◌, ap, subst, arith,
  Bool-cases, inl, inr, ◌⊎◌, In, here, there, In-map, In-filter, In-contains, ltb, length,
}
use alpha_swarm.Orchestrator.Task.{SubTask}
use alpha_swarm.Orchestrator.Planner.Env.{PlannerEnv}
use alpha_swarm.Orchestrator.Planner.Parse.{is_empty}
use alpha_swarm.Orchestrator.Planner.Scope.{
  named_files_in_goal, is_in_scope, clamp_task, clamp, add_all, all_files, merged_task, collapse,
  named_task, constrain_to_named_files,
}

-- The task has files, each of them named or still to be created.
pub record IsScoped (named repo_files : List Text) (t : SubTask) : Type 0 where
  pub has_files : is_empty t.files ≡ false
  pub in_scope : (f : Text) → In f t.files → is_in_scope named repo_files f ≡ true

abbrev pub AllScoped : List Text → List Text → List SubTask → Type 0
AllScoped named repo_files tasks = (t : SubTask) → In t tasks → IsScoped named repo_files t

false_of_not : (b : Bool) → not b ≡ true → b ≡ false
false_of_not b h = ground arith

clamp-AllScoped :
    (named repo_files : List Text) (tasks : List SubTask)
    → AllScoped named repo_files (clamp named repo_files tasks)
unfolding clamp
clamp-AllScoped named repo_files tasks t m =
    let (listed, kept) =
      In-filter (λ t. not (is_empty t.files)) t (map (clamp_task named repo_files) tasks) m in
    let (u, there_is, e) = In-map (clamp_task named repo_files) t tasks listed in
    record {
      has_files = false_of_not (is_empty t.files) kept;
      in_scope = λ f i.
          (In-filter (is_in_scope named repo_files) f u.files (subst (λ v. In f v.files) e i)).1;
    }

In-add_all : (f : Text) (fs files : List Text) → In f (add_all fs files) → In f fs ⊎ In f files
In-add_all f [] files m = inr m
In-add_all f (g ∷ fs) files m = elim (Bool-cases (contains (add_all fs files) g)) [
  | inl old ↦ elim (In-add_all f fs files (rw old at m)) [ inl a ↦ inl (there a) | inr b ↦ inr b ]
  | inr new ↦ first (rw new at m) (In-add_all f fs files)
]
  where
    first :
        In f (g ∷ add_all fs files)
        → (In f (add_all fs files) → In f fs ⊎ In f files)
        → In f (g ∷ fs) ⊎ In f files
    first (here e) rest = inl (here e)
    first (there i) rest = elim (rest i) [ inl a ↦ inl (there a) | inr b ↦ inr b ]

In-all_files :
    (f : Text) (tasks : List SubTask)
    → In f (all_files tasks)
    → (t : SubTask) × In t tasks × In f t.files
unfolding all_files
In-all_files f [] m = elim m [ ]
In-all_files f (t ∷ tasks) m = elim (In-add_all f t.files (all_files tasks) m) [
  | inl own ↦ (t, here refl, own)
  | inr more ↦ let (u, listed, i) = In-all_files f tasks more in (u, there listed, i)
]

List-cases :
    (xs : List Text)
    → ((file : Text) × (xs ≡ file ∷ []))
      ⊎ ((tasks : List SubTask) → all_files tasks ≡ xs → collapse tasks ≡ tasks)
unfolding collapse
List-cases [] = inr λ tasks e. rw (e, collapse) refl
List-cases (x ∷ []) = inl (x, refl)
List-cases (x ∷ y ∷ xs) = inr λ tasks e. rw (e, collapse) refl

collapse_one :
    (tasks : List SubTask) (file : Text)
    → all_files tasks ≡ file ∷ []
    → ltb 1 (length tasks) ≡ true
    → collapse tasks ≡ merged_task tasks file ∷ []
unfolding collapse
collapse_one tasks file e many = rw (e, collapse, many) refl

collapse_few :
    (tasks : List SubTask) (file : Text)
    → all_files tasks ≡ file ∷ []
    → ltb 1 (length tasks) ≡ false
    → collapse tasks ≡ tasks
unfolding collapse
collapse_few tasks file e few = rw (e, collapse, few) refl

-- Collapsing keeps the scope, and leaves a plan that has tasks with tasks.
abbrev Guarded : List Text → List Text → List SubTask → Type 0
Guarded named repo_files tasks = AllScoped named repo_files tasks × (is_empty tasks ≡ false)

collapse-Guarded :
    (named repo_files : List Text) (tasks : List SubTask)
    → Guarded named repo_files tasks
    → Guarded named repo_files (collapse tasks)
collapse-Guarded named repo_files tasks (scoped, some_task) = elim (List-cases (all_files tasks)) [
  | inl (file, one) ↦ elim (Bool-cases (ltb 1 (length tasks))) [
    | inl many ↦
        let (t, listed, own) = In-all_files file tasks (rw one (here refl)) in
        subst (Guarded named repo_files) (sym (collapse_one tasks file one many)) (
          (λ u i.
              only file (merged_task tasks file) refl ((scoped t listed).in_scope file own) u i),
          refl,
        )
    | inr few ↦
        subst (Guarded named repo_files) (sym (collapse_few tasks file one few)) (scoped, some_task)
  ]
  | inr same ↦ subst (Guarded named repo_files) (sym (same tasks refl)) (scoped, some_task)
]
  where
    only :
        (file : Text) (merged : SubTask)
        → merged.files ≡ file ∷ []
        → is_in_scope named repo_files file ≡ true
        → (u : SubTask) → In u (merged ∷ [])
        → IsScoped named repo_files u
    only file merged files ok u (here e) =
        let theirs : u.files ≡ file ∷ [] = ap (λ v. v.files) e ∙ files in
        record { has_files = rw theirs refl; in_scope = λ f i. alone f (subst (In f) theirs i) }
      where
        alone : (f : Text) → In f (file ∷ []) → is_in_scope named repo_files f ≡ true
        alone f (here e) = rw e ok
        alone f (there i) = elim i [ ]
    only file merged files ok u (there i) = elim i [ ]

named_task-Guarded :
    (goal : Text) (named repo_files : List Text)
    → is_empty named ≡ false
    → Guarded named repo_files (named_task goal named ∷ [])
named_task-Guarded goal named repo_files h = ((λ t m. scoped t m), refl)
  where
    scoped : (t : SubTask) → In t (named_task goal named ∷ []) → IsScoped named repo_files t
    scoped t (here e) =
        let files : t.files ≡ named = ap (λ v. v.files) e in
        record {
          has_files = rw files h;
          in_scope = λ f i. rw (In-contains named f (subst (In f) files i)) refl;
        }
    scoped t (there i) = elim i [ ]

-- When the goal names files of the repository, the guarded plan has tasks, every task's list of files
-- is not empty, and each file in it is a named file or one that the repository does not have. The
-- path of a task's direct edit is not among these files.
pub constrain_to_named_files_lem :
    (env : PlannerEnv) (goal : Text) (tasks : List SubTask) (repo_files : List Text)
    → is_empty (named_files_in_goal env goal repo_files) ≡ false
    → (is_empty (constrain_to_named_files env goal tasks repo_files) ≡ false)
      × ((t : SubTask)
          → In t (constrain_to_named_files env goal tasks repo_files)
          → IsScoped (named_files_in_goal env goal repo_files) repo_files t)
unfolding constrain_to_named_files
constrain_to_named_files_lem env goal tasks repo_files h =
    let named = named_files_in_goal env goal repo_files in
    let clamped = clamp named repo_files tasks in
    elim (Bool-cases (is_empty clamped)) [
      | inl nothing ↦
          let (scoped, some_task) =
            collapse-Guarded named repo_files (named_task goal named ∷ [])
              (named_task-Guarded goal named repo_files h) in
          rw (h, nothing) (some_task, scoped)
      | inr left ↦
          let (scoped, some_task) =
            collapse-Guarded named repo_files clamped
              (clamp-AllScoped named repo_files tasks, left) in
          rw (h, left) (some_task, scoped)
    ]
