-- ===== src/Orchestrator/Graph/Prompts.antt =====
-- crates/orchestrator/src/graph.rs: the prompts of the templates.
use alpha_swarm.Prelude.{Text, text, [], ◌∷◌, ◌++◌, Option, none, some, take_chars}
use alpha_swarm.Inference.{InferenceResponse}
use alpha_swarm.Orchestrator.Graph.{Run, returned, bailed, GraphExecutor, max_file_context}

module _ {W : Type 0} (g : GraphExecutor W) where
  abbrev or_llm_failed : Option InferenceResponse × W → Run InferenceResponse × W
  or_llm_failed (none, w) = (bailed (text "Graph LLM call failed"), w)
  or_llm_failed (some response, w) = (returned response, w)

  unfoldable pub llm_edit : Text → Text → Text → W → Run InferenceResponse × W
  unfolding take_chars
  llm_edit task path content w = or_llm_failed (
      g.call_llm
        (text "Edit "
          ++ (path
              ++ (text ":\n\n"
                  ++ (take_chars max_file_context content
                      ++ (text "\n\nTask: "
                          ++ (task
                              ++ (text "\n\nOutput ONLY:\n<<<EDIT "
                                  ++ (path
                                      ++ text
                                          "\n--- OLD\nexact lines to replace\n--- NEW\nreplacement\n>>>"))))))))
        w)

  unfoldable pub llm_create : Text → Text → W → Run InferenceResponse × W
  llm_create task path w = or_llm_failed (
      g.call_llm
        (text "Create new file "
          ++ (path
              ++ (text ".\n\nTask: "
                  ++ (task
                      ++ (text "\n\nOutput ONLY:\n<<<CREATE "
                          ++ (path ++ text "\nfile contents\n>>>"))))))
        w)

  unfoldable pub llm_fix : Text → Text → Text → Text → W → Run InferenceResponse × W
  unfolding take_chars
  llm_fix task path content error w = or_llm_failed (
      g.call_llm
        (text "Fix "
          ++ (path
              ++ (text ":\n\n"
                  ++ (take_chars max_file_context content
                      ++ (text "\n\nBuild error:\n"
                          ++ (error
                              ++ (text "\n\nOriginal task: "
                                  ++ (task
                                      ++ (text "\n\nOutput ONLY the fix:\n<<<EDIT "
                                          ++ (path ++ text "\n--- OLD\n--- NEW\n>>>"))))))))))
        w)

  unfoldable pub llm_doc_rewrite : Text → Text → Text → W → Run InferenceResponse × W
  unfolding take_chars
  llm_doc_rewrite task path content w = or_llm_failed (
      g.call_llm
        (text "Current content of "
          ++ (path
              ++ (text ":\n\n"
                  ++ (take_chars max_file_context content
                      ++ (text "\n\nTask: "
                          ++ (task
                              ++ (text "\n\nOutput the COMPLETE updated file with the task applied "
                                  ++ ((226 ∷ 128 ∷ 148 ∷ [])
                                      ++ (text
                                            " the ENTIRE file (keep all unrelated content verbatim), not a diff, not only the changed lines. One block only:\n<<<CREATE "
                                          ++ (path ++ text "\n<entire updated file>\n>>>"))))))))))
        w)
