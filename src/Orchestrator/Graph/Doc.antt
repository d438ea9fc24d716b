-- ===== src/Orchestrator/Graph/Doc.antt =====
-- crates/orchestrator/src/graph.rs, `execute_doc`: a whole document, refused when it looks cut off.
use alpha_swarm.Prelude.{
  Text, text, List, [], ◌∷◌, ◌++◌, Option, none, some, false, if◌then◌else◌, lines, length, decimal,
}
use alpha_swarm.EditParser.{FileEdit, parse_edits}
use alpha_swarm.Inference.{InferenceResponse}
use alpha_swarm.Orchestrator.Graph.{
  Run, returned, bailed, panicked, GraphExecutor, GraphResult, and_then, parsed_edits, apply_edits,
  doc_rewrite_truncated,
}
use alpha_swarm.Orchestrator.Graph.Prompts.{llm_doc_rewrite}

module _ {W : Type 0} (g : GraphExecutor W) where
  abbrev or_no_content : Option Text → Text
  or_no_content none = []
  or_no_content (some content) = content

  unfoldable pub truncated_rewrite : Text → List FileEdit → Option Text
  unfolding doc_rewrite_truncated
  truncated_rewrite content [] = none
  truncated_rewrite content (FileEdit.create path new ∷ edits) =
      if doc_rewrite_truncated content new then some new else truncated_rewrite content edits
  truncated_rewrite content (e ∷ edits) = truncated_rewrite content edits

  unfoldable pub landed : InferenceResponse → List FileEdit → W → Run GraphResult × W
  unfolding apply_edits
  landed response edits w =
      and_then (apply_edits g edits w) (λ done w'.
        (returned (record { response = response; edits = edits; escalated = false }), w'))

  abbrev rewritten :
      Text → Text → InferenceResponse → List FileEdit → Option Text → W → Run GraphResult × W
  unfolding landed lines decimal
  rewritten path content response edits none w = landed response edits w
  rewritten path content response edits (some new) w = (
    bailed (
        text "doc rewrite of "
        ++ (path
            ++ (text " looks truncated ("
                ++ (decimal (length (lines content))
                    ++ (text " "
                        ++ ((226 ∷ 134 ∷ 146 ∷ [])
                            ++ (text " "
                                ++ (decimal (length (lines new))
                                    ++ (text " lines) "
                                        ++ ((226 ∷ 128 ∷ 148 ∷ [])
                                            ++ text
                                                " rejecting to avoid landing a partial file")))))))))),
    w,
  )

  abbrev doc_edits :
      Text → Text → InferenceResponse → Option (List FileEdit) → W → Run GraphResult × W
  unfolding rewritten
  doc_edits path content response none w = (panicked, w)
  doc_edits path content response (some edits) w =
      rewritten path content response edits (truncated_rewrite content edits) w

  unfoldable pub execute_doc : Text → Text → W → Run GraphResult × W
  unfolding llm_doc_rewrite doc_edits parse_edits truncated_rewrite
  execute_doc task path w =
      let content = or_no_content (g.load path w) in
      and_then (llm_doc_rewrite g task path content w) (λ response w'.
        doc_edits path content response (parsed_edits (parse_edits response.content)) w')
