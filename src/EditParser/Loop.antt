-- ===== src/EditParser/Loop.antt =====
-- Both loops of crates/edit-parser/src/lib.rs end: each round drops the markers it passes.
use alpha_swarm.Prelude.{
  ℕ, zero, suc, ◌+◌, ◌≤◌, ◌<◌, Text, text, List, [], ◌∷◌, ◌++◌, Option, none, some, Bool, true,
  false, ◌≡◌, refl, arith, text_find, drop, trim, strip_prefix, slice, length, text_eq,
  text_find-length, length-drop,
}
use alpha_swarm.EditParser.{
  FileEdit, Parse, parsed, failed, panics, out_of_fuel, old_marker, new_marker, edit_of,
  parse_edit_block, header_and_body, by_header, parse_single_block, Cut, no_block, open_block,
  closed_block, cut_close, cut_open, next_block, salvage_as, salvage, of_kind, at_markers, Loop,
  push_edit, edits_round, edits_loop, parse_edits,
}
use alpha_swarm.EditParser.Actions
use alpha_swarm.EditParser.Actions.{
  AgentAction, as_edit, as_edit_if_any, is_edit_header, other_action, action_of, block_action,
  push_action, actions_round, actions_loop, parse_actions,
}

abbrev pub IsShorter : Text → Cut → Type 0
IsShorter rest (closed_block block left) = length left < length rest
IsShorter rest _ = Unit

drop-shorter :
    (n : ℕ) (p t : Text)
    → text_find p t ≡ some n
    → length (drop (n + length p) t) + length p ≤ length t
drop-shorter n p t e =
    omega (arith, length-drop (n + length p) t (text_find-length p t n e), text_find-length p t n e)

pub next_block-IsShorter : (rest : Text) → IsShorter rest (next_block rest)
unfolding next_block
next_block-IsShorter rest = at_open (text_find (text "<<<") rest) refl
  where
    at_close :
        (start : ℕ) (o : Option ℕ)
        → text_find (text "<<<") rest ≡ some start
        → text_find (text ">>>") (drop (start + 3) rest) ≡ o
        → IsShorter rest (cut_close (drop (start + 3) rest) o)
    at_close start none e f = tt
    at_close start (some end) e f = omega (
      arith,
      drop-shorter start (text "<<<") rest e,
      drop-shorter end (text ">>>") (drop (start + 3) rest) f,
    )

    at_open : (o : Option ℕ) → text_find (text "<<<") rest ≡ o → IsShorter rest (cut_open rest o)
    at_open none e = tt
    at_open (some start) e = at_close start (text_find (text ">>>") (drop (start + 3) rest)) e refl

abbrev pub Ends {ℓ} : {A : Type ℓ} → Parse A → Type 0
Ends out_of_fuel = ⊥
Ends _ = Unit

edit_block-Ends : (path body : Text) → Ends (parse_edit_block path body)
unfolding parse_edit_block
edit_block-Ends path body = at (text_find old_marker body) (text_find new_marker body)
  where
    cut_out : (after_new : Text) (o : Option Text) → Ends (edit_of path after_new o)
    cut_out after_new none = tt
    cut_out after_new (some old) = tt

    at : (o n : Option ℕ) → Ends (at_markers path body o n)
    at none n = tt
    at (some o) none = tt
    at (some o) (some n) = cut_out (drop (n + 7) body) (slice (o + 7) n body)

of_kind-Ends : (header body : Text) (e c d : Option Text) → Ends (of_kind header body e c d)
unfolding of_kind
of_kind-Ends header body (some path) c d = edit_block-Ends (trim path) body
of_kind-Ends header body none (some path) d = tt
of_kind-Ends header body none none (some path) = tt
of_kind-Ends header body none none none = tt

pub single_block-Ends : (block : Text) → Ends (parse_single_block block)
unfolding parse_single_block by_header
single_block-Ends block =
    let (header, body) = header_and_body block in
    of_kind-Ends header body (strip_prefix (text "EDIT ") header)
      (strip_prefix (text "CREATE ") header) (strip_prefix (text "DELETE ") header)

as_edit-Ends : (r : Parse FileEdit) → Ends r → Ends (as_edit r)
as_edit-Ends (parsed e) h = tt
as_edit-Ends (failed error) h = tt
as_edit-Ends panics h = tt
as_edit-Ends out_of_fuel h = elim h [ ]

as_edit_if_any-Ends : (r : Parse FileEdit) → Ends r → Ends (as_edit_if_any r)
as_edit_if_any-Ends (parsed e) h = tt
as_edit_if_any-Ends (failed error) h = tt
as_edit_if_any-Ends panics h = tt
as_edit_if_any-Ends out_of_fuel h = elim h [ ]

other_action-Ends : (block body : Text) (a d : Bool) → Ends (other_action block body a d)
unfolding other_action
other_action-Ends block body true d = tt
other_action-Ends block body false true = tt
other_action-Ends block body false false =
    as_edit_if_any-Ends (parse_single_block block) (single_block-Ends block)

action_of-Ends :
    (block body : Text) (o : Option Text) (e a d : Bool) → Ends (action_of block body o e a d)
unfolding action_of
action_of-Ends block body (some tool_name) e a d = tt
action_of-Ends block body none true a d =
    as_edit-Ends (parse_single_block block) (single_block-Ends block)
action_of-Ends block body none false a d = other_action-Ends block body a d

block_action-Ends : (block : Text) → Ends (block_action block)
unfolding block_action
block_action-Ends block =
    let (header, body) = header_and_body block in
    action_of-Ends block body (strip_prefix (text "TOOL ") header) (is_edit_header header)
      (text_eq header (text "AGENT")) (text_eq header (text "DONE"))

salvage_as-Ends : (edits : List FileEdit) (r : Parse FileEdit) → Ends r → Ends (salvage_as edits r)
salvage_as-Ends edits (parsed e) k = tt
salvage_as-Ends edits (failed error) k = tt
salvage_as-Ends edits panics k = tt
salvage_as-Ends edits out_of_fuel k = elim k [ ]

salvage-Ends : (edits : List FileEdit) (block : Text) → Ends (salvage edits block)
unfolding salvage
salvage-Ends edits [] = tt
salvage-Ends edits (b ∷ block) =
    salvage_as-Ends edits (parse_single_block (b ∷ block)) (single_block-Ends (b ∷ block))

push_edit-Ends :
    (again : Loop) (rest : Text) (edits : List FileEdit) (r : Parse FileEdit)
    → Ends r
    → ((more : List FileEdit) → Ends (again rest more))
    → Ends (push_edit again rest edits r)
push_edit-Ends again rest edits (parsed e) k h = h (edits ++ (e ∷ []))
push_edit-Ends again rest edits (failed error) k h = tt
push_edit-Ends again rest edits panics k h = tt
push_edit-Ends again rest edits out_of_fuel k h = elim k [ ]

edits_round-Ends :
    (again : Loop) (edits : List FileEdit) (rest : Text) (c : Cut)
    → IsShorter rest c
    → ((left : Text) (more : List FileEdit) → length left < length rest → Ends (again left more))
    → Ends (edits_round again edits c)
unfolding edits_round
edits_round-Ends again edits rest no_block s h = tt
edits_round-Ends again edits rest (open_block block) s h = salvage-Ends edits block
edits_round-Ends again edits rest (closed_block block left) s h =
    push_edit-Ends again left edits (parse_single_block block) (single_block-Ends block)
      λ more. h left more s

edits_loop-Ends :
    (fuel : ℕ) (rest : Text) (edits : List FileEdit)
    → length rest < fuel
    → Ends (edits_loop fuel rest edits)
unfolding edits_loop
edits_loop-Ends zero rest edits h = omega (arith, h)
edits_loop-Ends (suc fuel) rest edits h =
    edits_round-Ends (edits_loop fuel) edits rest (next_block rest) (next_block-IsShorter rest)
      λ left more s. edits_loop-Ends fuel left more (omega (arith, s, h))

push_action-Ends :
    (again : Actions.Loop) (rest : Text) (actions : List AgentAction)
    (r : Parse (Option AgentAction))
    → Ends r
    → ((more : List AgentAction) → Ends (again rest more))
    → Ends (push_action again rest actions r)
push_action-Ends again rest actions (parsed none) k h = h actions
push_action-Ends again rest actions (parsed (some a)) k h = h (actions ++ (a ∷ []))
push_action-Ends again rest actions (failed error) k h = tt
push_action-Ends again rest actions panics k h = tt
push_action-Ends again rest actions out_of_fuel k h = elim k [ ]

actions_round-Ends :
    (again : Actions.Loop) (actions : List AgentAction) (rest : Text) (c : Cut)
    → IsShorter rest c
    → ((left : Text) (more : List AgentAction) → length left < length rest → Ends (again left more))
    → Ends (actions_round again actions c)
unfolding actions_round
actions_round-Ends again actions rest no_block s h = tt
actions_round-Ends again actions rest (open_block block) s h = tt
actions_round-Ends again actions rest (closed_block block left) s h =
    push_action-Ends again left actions (block_action block) (block_action-Ends block)
      λ more. h left more s

actions_loop-Ends :
    (fuel : ℕ) (rest : Text) (actions : List AgentAction)
    → length rest < fuel
    → Ends (actions_loop fuel rest actions)
unfolding actions_loop
actions_loop-Ends zero rest actions h = omega (arith, h)
actions_loop-Ends (suc fuel) rest actions h =
    actions_round-Ends (actions_loop fuel) actions rest (next_block rest)
      (next_block-IsShorter rest)
      λ left more s. actions_loop-Ends fuel left more (omega (arith, s, h))

-- On every answer both loops end with a list, an error or a panic: one round more than the answer
-- has bytes is enough fuel, since a round leaves less than it was given.
pub parse-Ends : (response : Text) → Ends (parse_edits response) × Ends (parse_actions response)
unfolding parse_edits parse_actions
parse-Ends response = (
  edits_loop-Ends (suc (length response)) response [] (omega arith),
  actions_loop-Ends (suc (length response)) response [] (omega arith),
)
