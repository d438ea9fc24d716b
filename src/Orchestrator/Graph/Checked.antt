-- ===== src/Orchestrator/Graph/Checked.antt =====
-- A result of crates/orchestrator/src/graph.rs that does not escalate was checked.
use alpha_swarm.Prelude.{
  ℕ, zero, suc, ◌+◌, ◌-◌, Text, List, [], ◌∷◌, ◌++◌, Option, none, some, Bool, true, false, ◌≡◌,
  ◌⊎◌, inl, inr, refl, ◌∙◌, ap, ltb, Bool-cases, is_continuation, drop, length, arith,
}
use alpha_swarm.EditParser.{FileEdit}
use alpha_swarm.Inference.{InferenceResponse}
use alpha_swarm.Orchestrator.Graph.{
  Run, returned, bailed, panicked, GraphExecutor, GraphResult, check_outcome, check_failed,
  from_boundary, and_then, max_error_context, detect_check_command, run_check, apply_response,
}
use alpha_swarm.Orchestrator.Graph.Prompts.{llm_edit, llm_create}
use alpha_swarm.Orchestrator.Graph.Fix.{
  fix_once, after_check, attempts_from, check_and_fix, execute_edit, execute_create, edit_content,
  apply_and_check,
}

module _ {W : Type 0} (g : GraphExecutor W) (path : Text) where
  -- The last thing that happened in the world: a check of the path that passed.
  abbrev pub HasPassed : W → Type 0
  HasPassed w =
      (before : W) × (output : Text) × (g.shell (detect_check_command g (path ∷ [])) before
        ≡ (some (true, output), w))

  -- Or one that failed, or was not run.
  abbrev pub HasFailed : W → Type 0
  HasFailed w = (before : W) × (error : Text) × (run_check g (path ∷ []) before ≡ (bailed error, w))

  abbrev pub IsChecked : Run GraphResult × W → Type 0
  IsChecked (returned result, w) =
      ((result.escalated ≡ false) × HasPassed w)
      ⊎ ((result.escalated ≡ true) × ((g.max_retries ≡ 0) ⊎ HasFailed w))
  IsChecked _ = Unit

  and_then-IsChecked :
      {A : Type 0} (r : Run A × W) (k : A → W → Run GraphResult × W)
      → ((a : A) (w : W) → IsChecked (k a w))
      → IsChecked (and_then r k)
  and_then-IsChecked (returned a, w) k h = h a w
  and_then-IsChecked (bailed error, w) k h = tt
  and_then-IsChecked (panicked, w) k h = tt

  never_returns : (t message : Text) → from_boundary t ≡ returned message → ⊥
  unfolding from_boundary
  never_returns [] message e = cc
  never_returns (b ∷ t) message e = elim (Bool-cases (is_continuation b)) [
    | inl inside ↦ ground arith
    | inr start ↦ ground arith
  ]

  run_check_passed :
      (before w : W) (message : Text)
      → run_check g (path ∷ []) before ≡ (returned message, w)
      → HasPassed w
  unfolding run_check check_outcome check_failed
  run_check_passed before w message e =
      from (g.shell (detect_check_command g (path ∷ [])) before) refl (ap (λ r. r.0) e)
        (ap (λ r. r.1) e)
    where
      from :
          (p : Option (Bool × Text) × W)
          → g.shell (detect_check_command g (path ∷ [])) before ≡ p
          → check_outcome p.0 ≡ returned message
          → p.1 ≡ w
          → HasPassed w
      from (none, v) e k same = cc
      from (some (true, output), v) e k same =
          (before, output, e ∙ ap (λ u. (some (true, output), u)) same)
      from (some (false, output), v) e k same =
          elim (never_returns (drop (length output - max_error_context) output) message k) [ ]

  after_check-IsChecked :
      (initial : InferenceResponse) (edits : List FileEdit) (more : Bool)
      (fix : Text → W → Run (List FileEdit) × W) (again : List FileEdit → W → Run GraphResult × W)
      (before : W) (r : Run Text × W)
      → run_check g (path ∷ []) before ≡ r
      → (more ≡ true → (es : List FileEdit) (w : W) → IsChecked (again es w))
      → IsChecked (after_check g initial edits more fix again r)
  unfolding after_check
  after_check-IsChecked initial edits more fix again before (returned message, w) e h =
      inl (refl, run_check_passed before w message e)
  after_check-IsChecked initial edits true fix again before (bailed error, w) e h =
      and_then-IsChecked (fix error w) (λ fix_edits w'. again (edits ++ fix_edits) w')
        λ fix_edits w'. h refl (edits ++ fix_edits) w'
  after_check-IsChecked initial edits false fix again before (bailed error, w) e h =
      inr (refl, inr (before, error, e))
  after_check-IsChecked initial edits more fix again before (panicked, w) e h = tt

  attempts_from-IsChecked :
      (task : Text) (initial : InferenceResponse) (left attempt : ℕ) (edits : List FileEdit) (w : W)
      → attempt + left ≡ g.max_retries
      → (left ≡ 0 → g.max_retries ≡ 0)
      → IsChecked (attempts_from g task path initial left attempt edits w)
  unfolding attempts_from
  attempts_from-IsChecked task initial zero attempt edits w e h = inr (refl, inl (h refl))
  attempts_from-IsChecked task initial (suc left) attempt edits w e h =
      after_check-IsChecked initial edits (ltb attempt (g.max_retries - 1)) (fix_once g task path)
        (attempts_from g task path initial left (suc attempt)) w (run_check g (path ∷ []) w) refl
        λ more es w'.
          attempts_from-IsChecked task initial left (suc attempt) es w' (omega (arith, e))
            (ground (arith, e, more))

  check_and_fix-IsChecked :
      (task : Text) (initial : InferenceResponse) (edits : List FileEdit) (w : W)
      → IsChecked (check_and_fix g task path initial edits w)
  unfolding check_and_fix
  check_and_fix-IsChecked task initial edits w =
      attempts_from-IsChecked task initial g.max_retries 0 edits w (omega arith) λ e. e

  apply_and_check-IsChecked :
      (task : Text) (response : InferenceResponse) (w : W)
      → IsChecked (apply_and_check g task path response w)
  unfolding apply_and_check
  apply_and_check-IsChecked task response w =
      and_then-IsChecked (apply_response g response.content w)
        (λ edits w'. check_and_fix g task path response edits w')
        λ edits w'. check_and_fix-IsChecked task response edits w'

  edit_content-IsChecked :
      (task : Text) (content : Option Text) (w : W) → IsChecked (edit_content g task path content w)
  unfolding edit_content
  edit_content-IsChecked task none w = tt
  edit_content-IsChecked task (some content) w =
      and_then-IsChecked (llm_edit g task path content w) (apply_and_check g task path)
        (apply_and_check-IsChecked task)

-- When an edit or a new file comes back without escalation, the last thing that happened is a check of
-- the path that passed; when it comes back to be escalated, the last is a check that failed, or no
-- attempt was allowed.
pub execute-IsChecked :
    {W : Type 0} (g : GraphExecutor W) (task path : Text) (w : W)
    → IsChecked g path (execute_edit g task path w)
      × IsChecked g path (execute_create g task path w)
unfolding execute_edit execute_create
execute-IsChecked g task path w = (
  edit_content-IsChecked g path task (g.load path w) w,
  and_then-IsChecked g path (llm_create g task path w) (apply_and_check g task path)
      (apply_and_check-IsChecked g path task),
)
