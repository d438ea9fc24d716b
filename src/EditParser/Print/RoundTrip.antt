-- ===== src/EditParser/Print/RoundTrip.antt =====
-- A printed answer, with prose around its blocks, is parsed to the edits that were printed.
use mathlib.Core.List.{append-nil, append_assoc}
use alpha_swarm.Prelude.{
  ℕ, zero, suc, ◌<◌, Text, text, List, [], ◌∷◌, ◌++◌, none, ◌≡◌, refl, sym, ◌∙◌, ap, subst, arith,
  text_find, is_prefix, length, text_find_joined,
}
use alpha_swarm.EditParser.{
  FileEdit, parsed, old_marker, new_marker, no_block, cut_open, next_block, push_edit, edits_round,
  edits_loop, parse_edits,
}
use alpha_swarm.EditParser.Loop.{next_block-IsShorter, IsShorter}
use alpha_swarm.EditParser.Print.{
  print_edit, answer, edits, IsPrintable, ArePrintable, next_block-closed,
}
use alpha_swarm.EditParser.Print.Block.{parse_single_block-print_edit}

print_edit_closed : (e : FileEdit) → IsPrintable e → text_find (text ">>>") (print_edit e) ≡ none
unfolding text_find is_prefix
print_edit_closed (FileEdit.edit path old new) (is_path, old_field, new_field, no_new) =
    text_find_joined (text ">>>") (text "EDIT") 32
      (path ++ (10 ∷ (old_marker ++ (10 ∷ (old ++ (10 ∷ (new_marker ++ (10 ∷ new)))))))) refl refl
      (text_find_joined (text ">>>") path 10
        (old_marker ++ (10 ∷ (old ++ (10 ∷ (new_marker ++ (10 ∷ new)))))) refl is_path.no_close
        (text_find_joined (text ">>>") old_marker 10 (old ++ (10 ∷ (new_marker ++ (10 ∷ new)))) refl
          refl
          (text_find_joined (text ">>>") old 10 (new_marker ++ (10 ∷ new)) refl old_field.1
            (text_find_joined (text ">>>") new_marker 10 new refl refl new_field.1))))
print_edit_closed (FileEdit.create path content) (is_path, field) =
    text_find_joined (text ">>>") (text "CREATE") 32 (path ++ (10 ∷ content)) refl refl
      (text_find_joined (text ">>>") path 10 content refl is_path.no_close field.1)
print_edit_closed (FileEdit.delete path) is_path =
    text_find_joined (text ">>>") (text "DELETE") 32 path refl refl is_path.no_close

next_block-none : (end : Text) → text_find (text "<<<") end ≡ none → next_block end ≡ no_block
unfolding next_block
next_block-none end h = ap (cut_open end) h

loop-answer :
    (blocks : List (Text × FileEdit)) (end : Text) (fuel : ℕ) (before : List FileEdit)
    → ArePrintable blocks
    → text_find (text "<<<") end ≡ none
    → length (answer blocks end) < fuel
    → edits_loop fuel (answer blocks end) before ≡ parsed (before ++ edits blocks)
unfolding edits_loop edits_round
loop-answer [] end zero before h k f = let no : ⊥ = omega (arith, f) in elim no [ ]
loop-answer ((prose, e) ∷ blocks) end zero before h k f =
    let no : ⊥ = omega (arith, f) in elim no [ ]
loop-answer [] end (suc fuel) before h k f =
    ap (edits_round (edits_loop fuel) before) (next_block-none end k)
    ∙ ap parsed (sym (append-nil before))
loop-answer ((prose, e) ∷ blocks) end (suc fuel) before (no_open, printable, later) k f =
    let cut =
      next_block-closed prose (print_edit e) (answer blocks end) no_open
        (print_edit_closed e printable) in
    let shorter : length (answer blocks end) < length (answer ((prose, e) ∷ blocks) end) =
      subst (IsShorter (answer ((prose, e) ∷ blocks) end)) cut
        (next_block-IsShorter (answer ((prose, e) ∷ blocks) end)) in
    ap (edits_round (edits_loop fuel) before) cut
    ∙ ap (push_edit (edits_loop fuel) (answer blocks end) before)
        (parse_single_block-print_edit e printable)
    ∙ loop-answer blocks end fuel (before ++ (e ∷ [])) later k (omega (arith, shorter, f))
    ∙ ap parsed (append_assoc before (e ∷ []) (edits blocks))

-- Edits written in the documented format, each after prose without `<<<` and with such prose at the
-- end, are read back as they were, in order. A path is one line and not empty; no field has white
-- space at its ends, begins inside a character or holds `>>>`; and `old` does not hold `--- NEW`.
pub parse_edits-answer :
    (blocks : List (Text × FileEdit)) (end : Text)
    → ArePrintable blocks
    → text_find (text "<<<") end ≡ none
    → parse_edits (answer blocks end) ≡ parsed (edits blocks)
unfolding parse_edits
parse_edits-answer blocks end h k =
    loop-answer blocks end (suc (length (answer blocks end))) [] h k (omega arith)
