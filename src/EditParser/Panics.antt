-- ===== src/EditParser/Panics.antt =====
-- When crates/edit-parser/src/lib.rs panics: the markers of an `EDIT` block stand the wrong way round.
use alpha_swarm.Prelude.{
  ℕ, zero, suc, ◌+◌, ◌<◌, Text, text, List, [], ◌∷◌, ◌++◌, Option, none, some, false, ◌≡◌, ◌≢◌, ◌↔◌,
  refl, arith, text_find, drop, trim, strip_prefix, slice, length, leb, Bool-cases, inl, inr,
}
use alpha_swarm.EditParser.{
  FileEdit, Parse, parsed, failed, panics, out_of_fuel, old_marker, new_marker, edit_of, at_markers,
  parse_edit_block, header_and_body, of_kind, by_header, parse_single_block, Cut, no_block,
  open_block, closed_block, next_block, salvage_as, salvage, Loop, push_edit, edits_round,
  edits_loop, parse_edits,
}

-- The first `--- NEW` begins before the first `--- OLD` has ended.
abbrev pub IsBackward : Text → Type 0
IsBackward body =
    (o : ℕ) × (n : ℕ) × (text_find old_marker body ≡ some o)
    × (text_find new_marker body ≡ some n)
    × (n < o + 7)

-- An `EDIT` block with such a body.
abbrev pub HasBackwardEdit : Text → Type 0
HasBackwardEdit block =
    ((path : Text) × (strip_prefix (text "EDIT ") (header_and_body block).0 ≡ some path))
    × IsBackward (header_and_body block).1

-- The blocks that the loop comes to, the last of them perhaps not closed.
pub data BlockOf (block : Text) : Text → Type 0 where
  last : {rest : Text} → next_block rest ≡ open_block block → BlockOf block rest
  first : {rest left : Text} → next_block rest ≡ closed_block block left → BlockOf block rest
  later :
      {rest left other : Text}
      → next_block rest ≡ closed_block other left
      → BlockOf block left
      → BlockOf block rest

edit_of_panics :
    (path after_new : Text) (o n : ℕ) (body : Text)
    → edit_of path after_new (slice (o + 7) n body) ≡ panics
    → n < o + 7
edit_of_panics path after_new o n body e = elim (Bool-cases (leb (o + 7) n)) [
  | inl before ↦
      let cut : edit_of path after_new (slice (o + 7) n body) ≢ panics = rw before (λ k. cc) in
      elim (cut e) [ ]
  | inr late ↦ ground arith
]

edit_of_backward :
    (path after_new : Text) (o n : ℕ) (body : Text)
    → n < o + 7
    → edit_of path after_new (slice (o + 7) n body) ≡ panics
edit_of_backward path after_new o n body h =
    let late : leb (o + 7) n ≡ false = ground arith in rw late refl

edit_block_panics : (path body : Text) → (parse_edit_block path body ≡ panics) ↔ IsBackward body
unfolding parse_edit_block
edit_block_panics path body =
    (at (text_find old_marker body) (text_find new_marker body) refl refl, back)
  where
    at :
        (p q : Option ℕ)
        → text_find old_marker body ≡ p
        → text_find new_marker body ≡ q
        → at_markers path body p q ≡ panics
        → IsBackward body
    at none q e f k = cc
    at (some o) none e f k = cc
    at (some o) (some n) e f k = (o, n, e, f, edit_of_panics path (drop (n + 7) body) o n body k)

    back :
        IsBackward body
        → at_markers path body (text_find old_marker body) (text_find new_marker body) ≡ panics
    back (o, n, e, f, h) = rw (e, f) (edit_of_backward path (drop (n + 7) body) o n body h)

-- A block panics exactly when it is an `EDIT` block whose `--- NEW` begins before the end of its
-- `--- OLD`.
single_block_panics : (block : Text) → (parse_single_block block ≡ panics) ↔ HasBackwardEdit block
unfolding parse_single_block by_header
single_block_panics block =
    let (header, body) = header_and_body block in
    of_kind_panics header body (strip_prefix (text "EDIT ") header)
      (strip_prefix (text "CREATE ") header) (strip_prefix (text "DELETE ") header)
  where
    of_kind_panics :
        (header body : Text) (e c d : Option Text)
        → (of_kind header body e c d ≡ panics)
          ↔ (((path : Text) × (e ≡ some path)) × IsBackward body)
    of_kind_panics header body (some path) c d =
        unfold of_kind in
        (
          (λ k. ((path, refl), (edit_block_panics (trim path) body).0 k)),
          λ k. (edit_block_panics (trim path) body).1 k.1,
        )
    of_kind_panics header body none (some path) d =
        unfold of_kind in ((λ k. cc), λ k. let (named, b) = k in let (p, e) = named in cc)
    of_kind_panics header body none none (some path) =
        unfold of_kind in ((λ k. cc), λ k. let (named, b) = k in let (p, e) = named in cc)
    of_kind_panics header body none none none =
        unfold of_kind in ((λ k. cc), λ k. let (named, b) = k in let (p, e) = named in cc)

abbrev Culprit : Text → Type 0
Culprit rest = (block : Text) × BlockOf block rest × HasBackwardEdit block

salvage_panics :
    (edits : List FileEdit) (block : Text) → salvage edits block ≡ panics → HasBackwardEdit block
unfolding salvage
salvage_panics edits [] e = cc
salvage_panics edits (b ∷ block) e =
    (single_block_panics (b ∷ block)).0 (from (parse_single_block (b ∷ block)) e)
  where
    from : (r : Parse FileEdit) → salvage_as edits r ≡ panics → r ≡ panics
    from (parsed e) h = cc
    from (failed error) h = cc
    from panics h = refl
    from out_of_fuel h = cc

round_panics :
    (again : Loop) (edits : List FileEdit) (rest : Text) (c : Cut)
    → next_block rest ≡ c
    → ((left : Text) (more : List FileEdit) → again left more ≡ panics → Culprit left)
    → edits_round again edits c ≡ panics
    → Culprit rest
unfolding edits_round
round_panics again edits rest no_block e h k = cc
round_panics again edits rest (open_block block) e h k =
    (block, last e, salvage_panics edits block k)
round_panics again edits rest (closed_block block left) e h k = at (parse_single_block block) refl k
  where
    at :
        (r : Parse FileEdit)
        → parse_single_block block ≡ r
        → push_edit again left edits r ≡ panics
        → Culprit rest
    at (parsed f) p q =
        let (culprit, is_block, backward) = h left (edits ++ (f ∷ [])) q in
        (culprit, later e is_block, backward)
    at (failed error) p q = cc
    at panics p q = (block, first e, (single_block_panics block).0 p)
    at out_of_fuel p q = cc

loop_panics :
    (fuel : ℕ) (rest : Text) (edits : List FileEdit)
    → edits_loop fuel rest edits ≡ panics
    → Culprit rest
unfolding edits_loop
loop_panics zero rest edits k = cc
loop_panics (suc fuel) rest edits k =
    round_panics (edits_loop fuel) edits rest (next_block rest) refl
      (λ left more. loop_panics fuel left more) k

-- When `parse_edits` panics, one of the answer's blocks is an `EDIT` block whose first `--- NEW`
-- begins before the end of its first `--- OLD`; and such a block always makes `parse_single_block`
-- panic.
pub parse_edits_panics :
    (response : Text)
    → (parse_edits response ≡ panics
        → (block : Text) × BlockOf block response × HasBackwardEdit block)
      × ((block : Text) → HasBackwardEdit block → parse_single_block block ≡ panics)
unfolding parse_edits
parse_edits_panics response =
    (loop_panics (suc (length response)) response [], λ block. (single_block_panics block).1)
