-- ===== src/EditParser/Witnesses.antt =====
-- The theorems about the parser of edits at concrete answers.
use alpha_swarm.Prelude.{Text, text, text_eq, [], ◌∷◌, ◌≡◌, refl, is_prefix, text_find}
use alpha_swarm.EditParser.{parsed, panics, parse_single_block, parse_edit_block, parse_edits}
use alpha_swarm.EditParser.Actions.{AgentAction, parse_actions}
use alpha_swarm.EditParser.Loop.{Ends, parse-Ends}
use alpha_swarm.EditParser.Panics.{BlockOf, HasBackwardEdit, parse_edits_panics}
use alpha_swarm.EditParser.Agree.{Agrees, parse_actions-Agrees}
use alpha_swarm.EditParser.Print.{answer}
use alpha_swarm.EditParser.Print.RoundTrip.{parse_edits-answer}
use alpha_swarm.EditParser.Samples.{
  fix, fresh, blocks, this-IsPath, other-IsPath, old-IsField, new-IsField, content-IsField,
}

program : Unit {0}
unfolding parse_edits parse_actions parse_edit_block text_eq text_find is_prefix
program = tt

closed : Text
closed = text "Done.\n<<<DELETE c.rs\n>>>"

abbrev unclosed : Text
unclosed = text "<<<CREATE b.rs\nfn b() {}"

abbrev backward : Text
backward = text "<<<EDIT a.rs\n--- NEW\ny\n--- OLD\nx\n>>>"

read_salvaged : parse_edits unclosed ≡ parsed (fresh ∷ [])
unfolding program
read_salvaged = refl

-- `parse_actions` drops the unclosed block.
action_lost : parse_actions unclosed ≡ parsed []
unfolding program
action_lost = refl

read_backward : parse_edits backward ≡ panics
unfolding program
read_backward = refl

agent_read :
    parse_actions (
      text
        "<<<AGENT\n{\"description\": \"d\", \"files\": [\"a\", \"b\"], \"complexity\": \"simple\"}\n>>>")
    ≡ parsed (AgentAction.agent (text "d") (text "a" ∷ text "b" ∷ []) (text "simple") ∷ [])
unfolding program
agent_read = refl

parse-Ends_example : Ends (parse_edits backward) × Ends (parse_actions backward)
parse-Ends_example = parse-Ends backward

parse_edits_panics_example :
    (parse_edits backward ≡ panics
      → (block : Text) × BlockOf block backward × HasBackwardEdit block)
    × ((block : Text) → HasBackwardEdit block → parse_single_block block ≡ panics)
parse_edits_panics_example = parse_edits_panics backward

parse_actions-Agrees_example : Agrees unclosed (fresh ∷ []) (parse_actions unclosed)
parse_actions-Agrees_example = parse_actions-Agrees unclosed (fresh ∷ []) read_salvaged

parse_edits-answer_example : parse_edits (answer blocks (text "Done.")) ≡ parsed (fix ∷ fresh ∷ [])
unfolding text_find is_prefix
parse_edits-answer_example =
    parse_edits-answer blocks (text "Done.")
      (
        refl,
        (this-IsPath, old-IsField, new-IsField, refl),
        (refl, (other-IsPath, content-IsField), tt),
      )
      refl
