-- ===== src/EditParser/Actions.antt =====
-- crates/edit-parser/src/lib.rs, `parse_actions`: tool calls, edits, sub-agents and the end.
use alpha_swarm.Prelude.{
  ℕ, zero, suc, ◌+◌, Text, text, text_eq, List, [], ◌∷◌, ◌++◌, map, filter, Option, none, some,
  Bool, true, false, not, ◌||◌, text_find, drop, strip_prefix, starts_with, split_at_byte, take,
  trim, trim_start, trim_matches, length,
}
use alpha_swarm.EditParser.{
  FileEdit, Parse, parsed, failed, panics, out_of_fuel, header_and_body, parse_single_block, Cut,
  no_block, open_block, closed_block, next_block,
}

pub record ToolCall : Type 0 where
  pub name : Text
  pub params_json : Text

pub data AgentAction : Type 0 where
  tool : ToolCall → AgentAction
  edit : FileEdit → AgentAction
  agent : (description : Text) (files : List Text) (complexity : Text) → AgentAction
  done : (summary : Text) → AgentAction

abbrev quote : Text
quote = text "\""

-- What follows the first occurrence.
unfoldable pub after_first : Text → Text → Option Text
unfolding text_find
after_first pattern t = elim (text_find pattern t) [
  | none ↦ none
  | some n ↦ some (drop (n + length pattern) t)
]

abbrev up_to : Text → Text → Text
up_to pattern t = elim (text_find pattern t) [ none ↦ t | some end ↦ take end t ]

unfoldable pub extract_json_field : Text → Text → Text
unfolding after_first trim_start strip_prefix text_find
extract_json_field json field = elim (after_first (quote ++ (field ++ quote)) json) [
  | none ↦ []
  | some after_key ↦ elim (after_first (text ":") after_key) [
    | none ↦ []
    | some after_colon ↦ elim (strip_prefix quote (trim_start after_colon)) [
      | none ↦ []
      | some content ↦ up_to quote content
    ]
  ]
]

abbrev is_nonempty : Text → Bool
is_nonempty t = not (text_eq t [])

abbrev item_of : Text → Text
item_of s = trim_matches (λ c. text_eq c quote) (trim s)

unfoldable pub extract_json_array : Text → Text → List Text
unfolding after_first text_find split_at_byte trim trim_matches text_eq
extract_json_array json field = elim (after_first (quote ++ (field ++ quote)) json) [
  | none ↦ []
  | some after_key ↦ elim (after_first (text "[") after_key) [
    | none ↦ []
    | some after_bracket ↦ elim (text_find (text "]") after_bracket) [
      | none ↦ []
      | some end ↦ filter is_nonempty (map item_of (split_at_byte b',' (take end after_bracket)))
    ]
  ]
]

-- The action of a closed block, or none; `parsed none` lets the loop go on.
abbrev pub as_edit : Parse FileEdit → Parse (Option AgentAction)
as_edit (parsed e) = parsed (some (AgentAction.edit e))
as_edit (failed error) = failed error
as_edit panics = panics
as_edit out_of_fuel = out_of_fuel

abbrev pub as_edit_if_any : Parse FileEdit → Parse (Option AgentAction)
as_edit_if_any (parsed e) = parsed (some (AgentAction.edit e))
as_edit_if_any (failed error) = parsed none
as_edit_if_any panics = panics
as_edit_if_any out_of_fuel = out_of_fuel

abbrev pub is_edit_header : Text → Bool
is_edit_header header =
    starts_with header (text "EDIT ")
    || (starts_with header (text "CREATE ") || starts_with header (text "DELETE "))

unfoldable pub other_action : Text → Text → Bool → Bool → Parse (Option AgentAction)
unfolding parse_single_block extract_json_field extract_json_array trim
other_action block body true is_done = parsed (
    some (
      AgentAction.agent (extract_json_field body (text "description"))
        (extract_json_array body (text "files")) (extract_json_field body (text "complexity"))))
other_action block body false true = parsed (some (AgentAction.done (trim body)))
other_action block body false false = as_edit_if_any (parse_single_block block)

-- The branches over what the header begins with, is an edit's, `AGENT` and `DONE`.
unfoldable pub action_of :
    Text → Text → Option Text → Bool → Bool → Bool → Parse (Option AgentAction)
unfolding parse_single_block other_action trim
action_of block body (some tool_name) is_edit is_agent is_done =
    parsed (some (AgentAction.tool (record { name = trim tool_name; params_json = trim body })))
action_of block body none true is_agent is_done = as_edit (parse_single_block block)
action_of block body none false is_agent is_done = other_action block body is_agent is_done

unfoldable pub block_action : Text → Parse (Option AgentAction)
unfolding header_and_body action_of strip_prefix text_eq
block_action block =
    let (header, body) = header_and_body block in
    action_of block body (strip_prefix (text "TOOL ") header) (is_edit_header header)
      (text_eq header (text "AGENT")) (text_eq header (text "DONE"))

abbrev pub Loop : Type 0
Loop = Text → List AgentAction → Parse (List AgentAction)

abbrev pub push_action :
    Loop → Text → List AgentAction → Parse (Option AgentAction) → Parse (List AgentAction)
push_action again rest actions (parsed none) = again rest actions
push_action again rest actions (parsed (some a)) = again rest (actions ++ (a ∷ []))
push_action again rest actions (failed error) = failed error
push_action again rest actions panics = panics
push_action again rest actions out_of_fuel = out_of_fuel

unfoldable pub actions_round : Loop → List AgentAction → Cut → Parse (List AgentAction)
unfolding block_action
actions_round again actions no_block = parsed actions
actions_round again actions (open_block block) = parsed actions
actions_round again actions (closed_block block rest) =
    push_action again rest actions (block_action block)

unfoldable pub actions_loop : ℕ → Text → List AgentAction → Parse (List AgentAction)
unfolding next_block actions_round
actions_loop zero rest actions = out_of_fuel
actions_loop (suc fuel) rest actions = actions_round (actions_loop fuel) actions (next_block rest)

unfoldable pub parse_actions : Text → Parse (List AgentAction)
unfolding actions_loop
parse_actions response = actions_loop (suc (length response)) response []
