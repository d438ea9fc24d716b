-- ===== src/EditParser/Agree.antt =====
-- `parse_actions` against `parse_edits` of crates/edit-parser/src/lib.rs, on an answer of edits alone.
use mathlib.Core.List.{append-nil, map-append}
use alpha_swarm.Prelude.{
  ℕ, zero, suc, Text, text, text_eq, List, [], ◌∷◌, ◌++◌, map, none, some, true, false, ◌≡◌, refl,
  ap, subst, arith, strip_prefix, is_prefix, length, nat_eq, Bool-cases, inl, inr, ◌⊎◌,
}
use alpha_swarm.EditParser
use alpha_swarm.EditParser.{
  FileEdit, Parse, parsed, failed, panics, out_of_fuel, header_and_body, of_kind, by_header,
  parse_single_block, Cut, no_block, open_block, closed_block, next_block, salvage_as, salvage,
  push_edit, edits_round, edits_loop, parse_edits,
}
use alpha_swarm.EditParser.Actions.{
  AgentAction, is_edit_header, action_of, block_action, Loop, push_action, actions_round,
  actions_loop, parse_actions,
}

other_prefix :
    (a b : ℕ) (p q t : Text)
    → nat_eq a b ≡ false
    → is_prefix (a ∷ p) t ≡ true
    → is_prefix (b ∷ q) t ≡ false
unfolding is_prefix
other_prefix a b p q [] d h = refl
other_prefix a b p q (c ∷ t) d h = ground arith

not_stripped : (p t : Text) → is_prefix p t ≡ false → strip_prefix p t ≡ none
unfolding strip_prefix
not_stripped p t h = rw h refl

unknown_header :
    (header body : Text)
    → is_prefix (text "EDIT ") header ≡ false
    → is_prefix (text "CREATE ") header ≡ false
    → is_prefix (text "DELETE ") header ≡ false
    → by_header header body ≡ failed (text "Unknown edit block type: " ++ header)
unfolding by_header of_kind
unknown_header header body e c d =
    rw
      (
        not_stripped (text "EDIT ") header e,
        not_stripped (text "CREATE ") header c,
        not_stripped (text "DELETE ") header d,
      )
      refl

not_failed : {A : Type 0} (r : Parse A) (error : Text) (a : A) → r ≡ failed error → r ≡ parsed a → ⊥
not_failed r error a e f = cc

-- A block that `parse_single_block` reads has one of the three headers, and not a tool's.
headers :
    (header body : Text) (e : FileEdit)
    → by_header header body ≡ parsed e
    → (strip_prefix (text "TOOL ") header ≡ none) × (is_edit_header header ≡ true)
headers header body e h = elim (Bool-cases (is_prefix (text "EDIT ") header)) [
  | inl edits ↦ (
    not_stripped (text "TOOL ") header
        (other_prefix b'E' b'T' (text "DIT ") (text "OOL ") header refl edits),
    rw edits refl,
  )
  | inr no_edit ↦ elim (Bool-cases (is_prefix (text "CREATE ") header)) [
    | inl creates ↦ (
      not_stripped (text "TOOL ") header
          (other_prefix b'C' b'T' (text "REATE ") (text "OOL ") header refl creates),
      rw (no_edit, creates) refl,
    )
    | inr no_create ↦ elim (Bool-cases (is_prefix (text "DELETE ") header)) [
      | inl deletes ↦ (
        not_stripped (text "TOOL ") header
            (other_prefix b'D' b'T' (text "ELETE ") (text "OOL ") header refl deletes),
        rw (no_edit, no_create, deletes) refl,
      )
      | inr no_delete ↦
          elim (not_failed (by_header header body) (text "Unknown edit block type: " ++ header) e
            (unknown_header header body no_edit no_create no_delete) h) [ ]
    ]
  ]
]

block_action-edit :
    (block : Text) (e : FileEdit)
    → parse_single_block block ≡ parsed e
    → block_action block ≡ parsed (some (AgentAction.edit e))
unfolding block_action
block_action-edit block e h =
    let (header, body) = header_and_body block in
    let (no_tool, is_edit) = headers header body e (unfold parse_single_block in h) in
    rw (no_tool, is_edit) (edited block e h)
  where
    edited :
        (block : Text) (e : FileEdit)
        → parse_single_block block ≡ parsed e
        → action_of block
            (header_and_body block).1
            none
            true
            (text_eq (header_and_body block).0 (text "AGENT"))
            (text_eq (header_and_body block).0 (text "DONE"))
          ≡ parsed (some (AgentAction.edit e))
    edited block e h = unfold action_of in rw h refl

-- The edit that can be read from an unclosed block, if any.
abbrev pub SalvagedFrom : Text → List FileEdit → Type 0
SalvagedFrom block salvaged =
    ((e : FileEdit) × (parse_single_block block ≡ parsed e) × (salvaged ≡ e ∷ []))
    ⊎ (((e : FileEdit) → parse_single_block block ≡ parsed e → ⊥) × (salvaged ≡ []))

-- What an answer's unclosed block gives, after its closed blocks; nothing when it has none.
pub data Tail : Text → List FileEdit → Type 0 where
  at_end : {rest : Text} → next_block rest ≡ no_block → Tail rest []
  unclosed :
      {rest block : Text} {salvaged : List FileEdit}
      → next_block rest ≡ open_block block
      → SalvagedFrom block salvaged
      → Tail rest salvaged
  behind :
      {rest block left : Text} {salvaged : List FileEdit}
      → next_block rest ≡ closed_block block left
      → Tail left salvaged
      → Tail rest salvaged

abbrev pub Agrees : Text → List FileEdit → Parse (List AgentAction) → Type 0
Agrees rest es actions =
    (closed salvaged : List FileEdit) × (es ≡ closed ++ salvaged)
    × Tail rest salvaged
    × (actions ≡ parsed (map AgentAction.edit closed))

empty_block : (e : FileEdit) → parse_single_block [] ≡ parsed e → ⊥
unfolding parse_single_block
empty_block e h =
    not_failed (by_header [] []) (text "Unknown edit block type: " ++ []) e
      (unknown_header [] [] (unfold is_prefix in refl) (unfold is_prefix in refl)
        (unfold is_prefix in refl))
      h

salvage-SalvagedFrom :
    (edits es : List FileEdit) (block : Text)
    → salvage edits block ≡ parsed es
    → (salvaged : List FileEdit) × (es ≡ edits ++ salvaged) × SalvagedFrom block salvaged
unfolding salvage
salvage-SalvagedFrom edits es [] h = ([], cc (h, append-nil edits), inr (empty_block, refl))
salvage-SalvagedFrom edits es (b ∷ block) h = from (parse_single_block (b ∷ block)) refl h
  where
    from :
        (r : Parse FileEdit)
        → parse_single_block (b ∷ block) ≡ r
        → salvage_as edits r ≡ parsed es
        → (salvaged : List FileEdit) × (es ≡ edits ++ salvaged) × SalvagedFrom (b ∷ block) salvaged
    from (parsed e) r k = (e ∷ [], cc, inl (e, r, refl))
    from (failed error) r k = ([], cc (k, append-nil edits), inr (λ e p. cc, refl))
    from panics r k = cc
    from out_of_fuel r k = ([], cc (k, append-nil edits), inr (λ e p. cc, refl))

round-Agrees :
    (again : EditParser.Loop) (again_actions : Loop) (rest : Text) (edits es : List FileEdit)
    (c : Cut)
    → ((left : Text) (more : List FileEdit)
        → again left more ≡ parsed es
        → Agrees left es (again_actions left (map AgentAction.edit more)))
    → next_block rest ≡ c
    → edits_round again edits c ≡ parsed es
    → Agrees rest es (actions_round again_actions (map AgentAction.edit edits) c)
unfolding edits_round actions_round
round-Agrees again again_actions rest edits es no_block h cut k =
    (edits, [], cc (k, append-nil edits), at_end cut, refl)
round-Agrees again again_actions rest edits es (open_block block) h cut k =
    let (more, e, from) = salvage-SalvagedFrom edits es block k in
    (edits, more, e, unclosed cut from, refl)
round-Agrees again again_actions rest edits es (closed_block block left) h cut k =
    at (parse_single_block block) refl k
  where
    pushed :
        (e : FileEdit)
        → parse_single_block block ≡ parsed e
        → again_actions left (map AgentAction.edit (edits ++ (e ∷ [])))
          ≡ push_action again_actions left (map AgentAction.edit edits) (block_action block)
    pushed e p =
        rw (block_action-edit block e p)
          (ap (again_actions left) (map-append AgentAction.edit edits (e ∷ [])))

    moved : (actions : Parse (List AgentAction)) → Agrees left es actions → Agrees rest es actions
    moved actions (closed, salvaged, e, tail, same) = (closed, salvaged, e, behind cut tail, same)

    at :
        (r : Parse FileEdit)
        → parse_single_block block ≡ r
        → push_edit again left edits r ≡ parsed es
        → Agrees rest es
            (push_action again_actions left (map AgentAction.edit edits) (block_action block))
    at (parsed e) p q = subst (Agrees rest es) (pushed e p) (moved _ (h left (edits ++ (e ∷ [])) q))
    at (failed error) p q = cc
    at panics p q = cc
    at out_of_fuel p q = cc

loop-Agrees :
    (fuel : ℕ) (rest : Text) (edits es : List FileEdit)
    → edits_loop fuel rest edits ≡ parsed es
    → Agrees rest es (actions_loop fuel rest (map AgentAction.edit edits))
unfolding edits_loop actions_loop
loop-Agrees zero rest edits es k = cc
loop-Agrees (suc fuel) rest edits es k =
    round-Agrees (edits_loop fuel) (actions_loop fuel) rest edits es (next_block rest)
      (λ left more. loop-Agrees fuel left more es) refl k

-- An answer that `parse_edits` reads without an error is read by `parse_actions` as the same edits,
-- in the same order, less the edit that `parse_edits` salvages from a last, unclosed block when that
-- block can be read as an edit.
pub parse_actions-Agrees :
    (response : Text) (es : List FileEdit)
    → parse_edits response ≡ parsed es
    → Agrees response es (parse_actions response)
unfolding parse_edits parse_actions
parse_actions-Agrees response es = loop-Agrees (suc (length response)) response [] es
