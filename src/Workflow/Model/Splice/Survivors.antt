-- ===== src/Workflow/Model/Splice/Survivors.antt =====
-- What `splice_replan` leaves: no dependency on a removed step, and distinct ids.
use alpha_swarm.Prelude.{
  not_both, Text, List, [], ◌∷◌, ◌++◌, map, Bool, true, false, not, filter, contains, ◌≡◌, refl,
  arith, In, here, there, In-append, In-filter, In-map, text_eq, text_eq_iff, is_prefix,
  is_prefix-append, ◌⊎◌, Distinct, NonePrefixed, Distinct-append, Distinct-map_append,
  AllPrefixed-map_append, add_one_u32, Bool-cases, inl, inr, ap, ◌∙◌, sym, subst,
}
use alpha_swarm.Orchestrator.Task.{SubTask}
use alpha_swarm.Workflow.Model.Types.{WorkflowStep, WorkflowRun, step_ids, from_task}
use alpha_swarm.Workflow.Model.Splice.{
  doomed_ids, round_prefix, rename_task, rename_deps, splice_replan,
}
use alpha_swarm.Workflow.Model.Splice.Closure.{
  IsDoomed, root, dependent, dep_listed, doomed_ids_reach, doomed_ids-iff-IsDoomed,
}

abbrev pub new_ids : List SubTask → List Text
new_ids tasks = map (λ t. t.id) tasks

contains-filter_ids :
    (q : WorkflowStep → Bool) (ss : List WorkflowStep) (x : Text)
    → contains (step_ids ss) x ≡ false
    → contains (step_ids (filter q ss)) x ≡ false
contains-filter_ids q [] x h = h
contains-filter_ids q (s ∷ ss) x h = ground (arith, contains-filter_ids q ss x)

Distinct-filter_ids :
    (q : WorkflowStep → Bool) (ss : List WorkflowStep)
    → Distinct (step_ids ss)
    → Distinct (step_ids (filter q ss))
Distinct-filter_ids q [] h = tt
Distinct-filter_ids q (s ∷ ss) h = elim (Bool-cases (q s)) [
  | inl keep ↦ rw keep (contains-filter_ids q ss s.id h.0, Distinct-filter_ids q ss h.1)
  | inr drop ↦ rw drop (Distinct-filter_ids q ss h.1)
]

NonePrefixed-filter_ids :
    (p : Text) (q : WorkflowStep → Bool) (ss : List WorkflowStep)
    → NonePrefixed p (step_ids ss)
    → NonePrefixed p (step_ids (filter q ss))
NonePrefixed-filter_ids p q [] h = tt
NonePrefixed-filter_ids p q (s ∷ ss) h = elim (Bool-cases (q s)) [
  | inl keep ↦ rw keep (h.0, NonePrefixed-filter_ids p q ss h.1)
  | inr drop ↦ rw drop (NonePrefixed-filter_ids p q ss h.1)
]

step_ids-append : (xs ys : List WorkflowStep) → step_ids (xs ++ ys) ≡ step_ids xs ++ step_ids ys
step_ids-append [] ys = refl
step_ids-append (x ∷ xs) ys = ap (λ l. x.id ∷ l) (step_ids-append xs ys)

step_ids-added :
    (p : Text) (ns doomed : List Text) (ts : List SubTask)
    → step_ids (map (λ t. from_task (rename_task p ns doomed t)) ts)
      ≡ map (λ x. p ++ x) (new_ids ts)
unfolding from_task rename_task
step_ids-added p ns doomed [] = refl
step_ids-added p ns doomed (t ∷ ts) = ap (λ l. (p ++ t.id) ∷ l) (step_ids-added p ns doomed ts)

-- If the ids of the run are distinct, those of the new tasks are distinct, and no id of the run
-- begins with the prefix of this round of replanning, then the ids of the spliced run are distinct.
pub splice_replan-Distinct :
    (failed now : Text) (tasks : List SubTask) (wf : WorkflowRun)
    → Distinct (step_ids wf.steps)
    → Distinct (new_ids tasks)
    → NonePrefixed (round_prefix (add_one_u32 wf.replan_attempts)) (step_ids wf.steps)
    → Distinct (step_ids (splice_replan failed tasks now wf).0.steps)
unfolding splice_replan
splice_replan-Distinct failed now tasks wf old new fresh =
    let p = round_prefix (add_one_u32 wf.replan_attempts) in
    let doomed = doomed_ids failed wf.steps in
    let q = λ (s : WorkflowStep). not (contains doomed s.id) in
    subst Distinct
      (sym (
        step_ids-append _ _
        ∙ ap (λ l. step_ids (filter q wf.steps) ++ l)
            (step_ids-added p (new_ids tasks) doomed tasks)))
      (Distinct-append p (step_ids (filter q wf.steps)) (map (λ x. p ++ x) (new_ids tasks))
        (Distinct-filter_ids q wf.steps old) (Distinct-map_append p (new_ids tasks) new)
        (NonePrefixed-filter_ids p q wf.steps fresh) (AllPrefixed-map_append p (new_ids tasks)))

contains-rename_deps :
    (p : Text) (ns doomed deps : List Text) (d : Text)
    → contains (rename_deps p ns doomed deps) d ≡ true
    → (is_prefix p d ≡ true) ⊎ (contains doomed d ≡ false)
unfolding rename_deps
contains-rename_deps p ns doomed [] d h = cc
contains-rename_deps p ns doomed (e ∷ es) d h = elim (Bool-cases (contains ns e)) [
  | inl new ↦ elim (Bool-cases (text_eq (p ++ e) d)) [
    | inl same ↦
        inl (
          subst (λ x. is_prefix p x ≡ true) ((text_eq_iff (p ++ e) d).0 same)
            (is_prefix-append p e))
    | inr other ↦ contains-rename_deps p ns doomed es d (ground arith)
  ]
  | inr old ↦ elim (Bool-cases (contains doomed e)) [
    | inl gone ↦ contains-rename_deps p ns doomed es d (rw (old, gone) at h)
    | inr kept ↦ elim (Bool-cases (text_eq e d)) [
      | inl same ↦ inr (subst (λ x. contains doomed x ≡ false) ((text_eq_iff e d).0 same) kept)
      | inr other ↦ contains-rename_deps p ns doomed es d (ground arith)
    ]
  ]
]

-- A doomed id is the failed id or the id of a step.
IsDoomed-not-prefixed :
    (p failed : Text) (steps : List WorkflowStep) {x : Text}
    → is_prefix p failed ≡ false
    → ((s : WorkflowStep) → In s steps → is_prefix p s.id ≡ false)
    → IsDoomed steps failed x
    → is_prefix p x ≡ false
IsDoomed-not-prefixed p failed steps h k root = h
IsDoomed-not-prefixed p failed steps h k (dependent s d m listed bad) = k s m

NonePrefixed-In :
    (p : Text) (s : WorkflowStep) (steps : List WorkflowStep)
    → NonePrefixed p (step_ids steps)
    → In s steps
    → is_prefix p s.id ≡ false
NonePrefixed-In p s [] h m = elim m [ ]
NonePrefixed-In p s (t ∷ ts) h (here e) = rw e h.0
NonePrefixed-In p s (t ∷ ts) h (there m) = NonePrefixed-In p s ts h.1 m

dep_of_added :
    (p : Text) (ns doomed : List Text) (t : SubTask) (d : Text) {s : WorkflowStep}
    → s ≡ from_task (rename_task p ns doomed t)
    → contains s.task.depends_on d ≡ true
    → (is_prefix p d ≡ true) ⊎ (contains doomed d ≡ false)
unfolding from_task rename_task
dep_of_added p ns doomed t d e h =
    contains-rename_deps p ns doomed t.depends_on d
      (subst (λ (u : WorkflowStep). contains u.task.depends_on d ≡ true) e h)

-- No step of the spliced run, kept or new, depends on a removed step, provided that no id of the
-- run begins with the prefix of this round and the failed id is not so prefixed either.
pub splice_replan_no_dangling :
    (failed now : Text) (tasks : List SubTask) (wf : WorkflowRun) (s : WorkflowStep) (d : Text)
    → is_prefix (round_prefix (add_one_u32 wf.replan_attempts)) failed ≡ false
    → NonePrefixed (round_prefix (add_one_u32 wf.replan_attempts)) (step_ids wf.steps)
    → In s (splice_replan failed tasks now wf).0.steps
    → contains s.task.depends_on d ≡ true
    → ¬ IsDoomed wf.steps failed d
unfolding splice_replan
splice_replan_no_dangling failed now tasks wf s d fresh_failed fresh member listed bad =
    elim (In-append s (filter (λ t. not (contains doomed t.id)) wf.steps) _ member) [
      | inl kept ↦
          let (old, stays) = In-filter (λ t. not (contains doomed t.id)) s wf.steps kept in
          let gone : contains doomed s.id ≡ true =
            doomed_ids_reach failed wf.steps s old
              (dep_listed doomed s.task.depends_on d listed in_doomed) in
          ground arith
      | inr added ↦
          let (t, _, e) =
            In-map (λ t. from_task (rename_task p (new_ids tasks) doomed t)) s tasks added in
          elim (dep_of_added p (new_ids tasks) doomed t d e listed) [
            | inl prefixed ↦ not_both _ prefixed not_prefixed
            | inr clean ↦ not_both _ in_doomed clean
          ]
    ]
  where
    p : Text
    p = round_prefix (add_one_u32 wf.replan_attempts)

    doomed : List Text
    doomed = doomed_ids failed wf.steps

    in_doomed : contains doomed d ≡ true
    in_doomed = (doomed_ids-iff-IsDoomed failed wf.steps d).1 bad

    not_prefixed : is_prefix p d ≡ false
    not_prefixed =
        IsDoomed-not-prefixed p failed wf.steps fresh_failed
          (λ u m. NonePrefixed-In p u wf.steps fresh m) bad
