-- ===== src/Workflow/Model/Checkpoint/Reset.antt =====
-- What `reset_passed_steps` does to each step, and the number that it returns.
use alpha_swarm.Prelude.{
  ℕ, ◌+◌, List, [], ◌∷◌, map, ◌≡◌, true, refl, arith, count, ◌≢◌, ◌⊎◌, inl, inr, Bool-cases, subst,
}
use alpha_swarm.Workflow.State.{StepState, is_passed}
use alpha_swarm.Workflow.Model.Types.{WorkflowStep, WorkflowRun}
use alpha_swarm.Workflow.Model.Checkpoint.{reset_passed, reset_passed_steps}

is_passed_of : (x : StepState) → is_passed x ≡ true → x ≡ StepState.passed
is_passed_of StepState.passed h = refl
is_passed_of StepState.pending h = cc
is_passed_of StepState.running h = cc
is_passed_of StepState.failed h = cc
is_passed_of StepState.skipped h = cc

-- The steps before and after, and how many were reset: a passed step is pending and otherwise as it
-- was, and any other step is as it was.
abbrev pub Resets : List WorkflowStep → List WorkflowStep → ℕ → Type 0
Resets [] [] n = n ≡ 0
Resets [] (t ∷ ts) n = ⊥
Resets (s ∷ ss) [] n = ⊥
Resets (s ∷ ss) (t ∷ ts) n =
    ((s.state ≡ StepState.passed)
      × (t ≡ record s { state = StepState.pending })
      × (m : ℕ) × (n ≡ 1 + m)
      × Resets ss ts m)
    ⊎ ((s.state ≢ StepState.passed) × (t ≡ s) × Resets ss ts n)

none_more : (n : ℕ) → n ≡ 0 + n
none_more n = omega arith

reset-Resets :
    (steps : List WorkflowStep)
    → Resets steps (map reset_passed steps) (count (λ s. is_passed s.state) steps)
unfolding reset_passed
reset-Resets [] = refl
reset-Resets (s ∷ ss) = elim (Bool-cases (is_passed s.state)) [
  | inl is ↦ rw is (
      inl (is_passed_of s.state is, refl, count (λ s. is_passed s.state) ss, refl, reset-Resets ss))
  | inr is_not ↦
      rw is_not (
        inr
          (λ e. cc, refl, subst (Resets ss (map reset_passed ss)) (none_more _) (reset-Resets ss)))
]

passed_left :
    (steps : List WorkflowStep) → count (λ s. is_passed s.state) (map reset_passed steps) ≡ 0
unfolding reset_passed
passed_left [] = refl
passed_left (s ∷ ss) = ground (arith, passed_left ss)

-- After the reset each step that had passed is pending and otherwise as it was, every other step is
-- as it was, the number of passed steps is returned, none is left, nothing is captured, and the
-- checkpoint counts as complete again.
pub reset_passed_steps_lem :
    (wf : WorkflowRun)
    → Resets wf.steps (reset_passed_steps wf).0.steps (reset_passed_steps wf).1
      × (count (λ s. is_passed s.state) (reset_passed_steps wf).0.steps ≡ 0)
      × ((reset_passed_steps wf).0.captured_files ≡ [])
      × ((reset_passed_steps wf).0.checkpoint_complete ≡ true)
unfolding reset_passed_steps
reset_passed_steps_lem wf = (reset-Resets wf.steps, passed_left wf.steps, refl, refl)
