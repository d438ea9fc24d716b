-- ===== src/Orchestrator/Graph/Fix.antt =====
-- crates/orchestrator/src/graph.rs: an edit or a new file, checked and fixed a bounded number of times.
use alpha_swarm.Prelude.{
  ℕ, zero, suc, ◌-◌, Text, text, List, [], ◌∷◌, ◌++◌, Option, none, some, Bool, true, false, ltb,
}
use alpha_swarm.EditParser.{FileEdit}
use alpha_swarm.Inference.{InferenceResponse}
use alpha_swarm.Orchestrator.Graph.{
  Run, returned, bailed, panicked, GraphExecutor, GraphResult, and_then, run_check, apply_response,
}
use alpha_swarm.Orchestrator.Graph.Prompts.{llm_edit, llm_create, llm_fix}

module _ {W : Type 0} (g : GraphExecutor W) where
  abbrev or_empty : Option Text → Text
  or_empty none = []
  or_empty (some content) = content

  -- One fix: a prompt with the error, and the edits of its answer.
  unfoldable pub fix_once : Text → Text → Text → W → Run (List FileEdit) × W
  unfolding llm_fix apply_response
  fix_once task path error w =
      and_then (llm_fix g task path (or_empty (g.load path w)) error w)
        (λ fix w'. apply_response g fix.content w')

  -- After a check: passed, failed with attempts_from left, or failed for the last time.
  unfoldable pub after_check :
      InferenceResponse
      → List FileEdit
      → Bool
      → (Text → W → Run (List FileEdit) × W)
      → (List FileEdit → W → Run GraphResult × W)
      → Run Text × W
      → Run GraphResult × W
  after_check initial edits more fix again (returned message, w) =
      (returned (record { response = initial; edits = edits; escalated = false }), w)
  after_check initial edits true fix again (bailed error, w) =
      and_then (fix error w) (λ fix_edits w'. again (edits ++ fix_edits) w')
  after_check initial edits false fix again (bailed error, w) =
      (returned (record { response = initial; edits = edits; escalated = true }), w)
  after_check initial edits more fix again (panicked, w) = (panicked, w)

  -- The attempts_from from `attempt` on, `left` of them.
  unfoldable pub attempts_from :
      Text → Text → InferenceResponse → ℕ → ℕ → List FileEdit → W → Run GraphResult × W
  unfolding run_check fix_once after_check
  attempts_from task path initial zero attempt edits w =
      (returned (record { response = initial; edits = edits; escalated = true }), w)
  attempts_from task path initial (suc left) attempt edits w =
      after_check initial edits (ltb attempt (g.max_retries - 1)) (fix_once task path)
        (attempts_from task path initial left (suc attempt)) (run_check g (path ∷ []) w)

  unfoldable pub check_and_fix :
      Text → Text → InferenceResponse → List FileEdit → W → Run GraphResult × W
  unfolding attempts_from
  check_and_fix task path initial edits w = attempts_from task path initial g.max_retries 0 edits w

  unfoldable pub apply_and_check : Text → Text → InferenceResponse → W → Run GraphResult × W
  unfolding apply_response check_and_fix
  apply_and_check task path response w =
      and_then (apply_response g response.content w)
        (λ edits w'. check_and_fix task path response edits w')

  unfoldable pub edit_content : Text → Text → Option Text → W → Run GraphResult × W
  unfolding llm_edit apply_and_check
  edit_content task path none w = (bailed (text "Failed to read " ++ path), w)
  edit_content task path (some content) w =
      and_then (llm_edit g task path content w) (apply_and_check task path)

  unfoldable pub execute_edit : Text → Text → W → Run GraphResult × W
  unfolding edit_content
  execute_edit task path w = edit_content task path (g.load path w) w

  unfoldable pub execute_create : Text → Text → W → Run GraphResult × W
  unfolding llm_create apply_and_check
  execute_create task path w = and_then (llm_create g task path w) (apply_and_check task path)
