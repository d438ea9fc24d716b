-- ===== src/EditParser/Print/Block.antt =====
-- One printed block, trimmed as the loop trims it, is parsed to the edit that was printed.
use mathlib.Core.List.{append-nil, append_assoc}
use alpha_swarm.Prelude.{
  ℕ, suc, ◌+◌, ◌-◌, Text, text, [], ◌∷◌, ◌++◌, none, some, true, ◌≡◌, refl, sym, ◌∙◌, ap, arith,
  text_find, is_prefix, is_prefix-append, trim, trim_end, slice, length, chars, is_space, text_eq,
  leb, text_find_here, text_find_joined, text_find_behind, drop-length, take-length, drop_behind,
  IsTrimmed, StartsChar, HeadIsSolid, EndIsKept, trim_end-append, trim_newline, trim_after_newline,
  trim_solid, trim_trimmed, HeadIsSolid-append, length-append,
}
use alpha_swarm.EditParser.{
  FileEdit, parsed, old_marker, new_marker, newline, edit_of, at_markers, parse_edit_block,
  parse_single_block,
}
use alpha_swarm.EditParser.Print.{
  print_edit, IsPath, IsPrintable, last_line, line_end, trim-last_line, edit_header, create_header,
  delete_header, by_header-line, header_of, single_line,
}

slice_between :
    (x y z : Text) (n : ℕ) → n ≡ length x + length y → slice (length x) n (x ++ (y ++ z)) ≡ some y
slice_between x y z n e =
    let inside : leb (length x) n ≡ true = ground arith in
    let size : n - length x ≡ length y = omega (arith, e) in
    rw (inside, size, drop-length x (y ++ z), take-length y z) refl

-- The body of an `EDIT` block, with whatever stands behind the second marker.
parse_edit_block-printed :
    (path old after_new : Text)
    → IsTrimmed old
    → text_find new_marker old ≡ none
    → parse_edit_block path (old_marker ++ (10 ∷ (old ++ (10 ∷ (new_marker ++ after_new)))))
      ≡ parsed (FileEdit.edit path old (trim after_new))
unfolding parse_edit_block
parse_edit_block-printed path old after_new h no_new =
    let body = old_marker ++ (10 ∷ (old ++ (10 ∷ (new_marker ++ after_new)))) in
    let before = old_marker ++ (10 ∷ old) in
    let n = suc (length before) in
    let size : n ≡ 7 + length (10 ∷ (old ++ (10 ∷ []))) =
      omega (arith, length-append old (10 ∷ [])) in
    ap (λ o. at_markers path body o (text_find new_marker body))
      (text_find_here old_marker body
        (is_prefix-append old_marker (10 ∷ (old ++ (10 ∷ (new_marker ++ after_new))))))
    ∙ ap (at_markers path body (some 0)) (
        text_find_behind new_marker before 10 after_new refl (
          text_find_joined new_marker old_marker 10 old refl (unfold text_find is_prefix in refl)
            no_new))
    ∙ ap (λ t. edit_of path t (slice 7 n body)) (drop_behind before 10 new_marker after_new)
    ∙ ap (λ t. edit_of path after_new (slice 7 n (old_marker ++ (10 ∷ t))))
        (sym (append_assoc old (10 ∷ []) (new_marker ++ after_new)))
    ∙ ap (edit_of path after_new)
        (slice_between old_marker (10 ∷ (old ++ (10 ∷ []))) (new_marker ++ after_new) n size)
    ∙ ap (λ t. parsed (FileEdit.edit path t (trim after_new)))
        (trim_newline (10 ∷ old) ∙ trim_after_newline old h.starts_char ∙ trim_trimmed old h)

keep_before :
    (a t u : Text) (b : ℕ) (v : Text)
    → StartsChar t
    → trim_end t ≡ u
    → u ≡ b ∷ v
    → trim_end (a ++ t) ≡ a ++ u
keep_before a t u b v h e f = trim_end-append a t h (b, v, e ∙ f) ∙ ap (λ r. a ++ r) e

StartsChar-append : (a t : Text) (b : ℕ) (u : Text) → a ≡ b ∷ u → StartsChar a → StartsChar (a ++ t)
StartsChar-append [] t b u e h = cc
StartsChar-append (c ∷ a) t b u e h = h

-- A block that begins with a word and a path is trimmed at its end alone.
trim_block :
    (word path t : Text) (b : ℕ) (u : Text)
    → word ≡ b ∷ u
    → HeadIsSolid (chars word)
    → IsPath path
    → trim (word ++ (path ++ t)) ≡ trim_end (word ++ (path ++ t))
trim_block word path t b u e h is_path =
    let (c, v, f) = is_path.nonempty in
    trim_solid (word ++ (path ++ t)) (
      HeadIsSolid-append word (path ++ t) b u e h
        (StartsChar-append path t c v f is_path.trimmed.starts_char))

-- The closed words of the format.
edit_solid : HeadIsSolid (chars (text "EDIT "))
unfolding chars is_space text_eq
edit_solid = refl

create_solid : HeadIsSolid (chars (text "CREATE "))
unfolding chars is_space text_eq
create_solid = refl

delete_solid : HeadIsSolid (chars (text "DELETE "))
unfolding chars is_space text_eq
delete_solid = refl

marker_kept : EndIsKept new_marker
unfolding chars is_space text_eq
marker_kept = refl

edit_line : text_find newline (text "EDIT ") ≡ none
unfolding text_find is_prefix
edit_line = refl

create_line : text_find newline (text "CREATE ") ≡ none
unfolding text_find is_prefix
create_line = refl

delete_line : text_find newline (text "DELETE ") ≡ none
unfolding text_find is_prefix
delete_line = refl

edit-printed :
    (path old new : Text)
    → IsPrintable (FileEdit.edit path old new)
    → parse_single_block (trim (print_edit (FileEdit.edit path old new)))
      ≡ parsed (FileEdit.edit path old new)
edit-printed path old new (is_path, old_field, new_field, no_new) =
    let word = text "EDIT " in
    let lead = word ++ (path ++ (10 ∷ (old_marker ++ (10 ∷ (old ++ (10 ∷ [])))))) in
    let body = old_marker ++ (10 ∷ (old ++ (10 ∷ (new_marker ++ last_line new)))) in
    ap parse_single_block (
      trim_block word path _ b'E' (text "DIT ") refl edit_solid is_path
      ∙ ap trim_end (sym (joined (new_marker ++ (10 ∷ new))))
      ∙ keep_before lead (new_marker ++ (10 ∷ new)) (new_marker ++ last_line new) _ _ refl
          (line_end new_marker new marker_kept new_field.0) refl
      ∙ joined (new_marker ++ last_line new))
    ∙ by_header-line word path body is_path edit_solid (_, _, refl) edit_line
    ∙ edit_header path body
    ∙ parse_edit_block-printed (trim path) old (last_line new) old_field.0 no_new
    ∙ ap (λ t. parsed (FileEdit.edit t old (trim (last_line new))))
        (trim_trimmed path is_path.trimmed)
    ∙ ap (λ t. parsed (FileEdit.edit path old t)) (trim-last_line new new_field.0)
  where
    joined :
        (t : Text)
        → (text "EDIT " ++ (path ++ (10 ∷ (old_marker ++ (10 ∷ (old ++ (10 ∷ []))))))) ++ t
          ≡ text "EDIT " ++ (path ++ (10 ∷ (old_marker ++ (10 ∷ (old ++ (10 ∷ t))))))
    joined t =
        ap (λ r. text "EDIT " ++ r)
          (append_assoc path (10 ∷ (old_marker ++ (10 ∷ (old ++ (10 ∷ []))))) t)
        ∙ ap (λ r. text "EDIT " ++ (path ++ (10 ∷ (old_marker ++ (10 ∷ r)))))
            (append_assoc old (10 ∷ []) t)

create-printed :
    (path content : Text)
    → IsPath path
    → IsTrimmed content
    → parse_single_block (trim (print_edit (FileEdit.create path content)))
      ≡ parsed (FileEdit.create path content)
create-printed path content is_path trimmed =
    let (c, v, f) = is_path.nonempty in
    ap parse_single_block (
      trim_block (text "CREATE ") path (10 ∷ content) b'C' (text "REATE ") refl create_solid is_path
      ∙ keep_before (text "CREATE ") (path ++ (10 ∷ content)) (path ++ last_line content) c
          (v ++ last_line content)
          (StartsChar-append path (10 ∷ content) c v f is_path.trimmed.starts_char)
          (line_end path content is_path.trimmed.end_kept trimmed)
          (ap (λ t. t ++ last_line content) f))
    ∙ at_content content
    ∙ ap (λ t. parsed (FileEdit.create t content)) (trim_trimmed path is_path.trimmed)
  where
    at_content :
        (content : Text)
        → parse_single_block (text "CREATE " ++ (path ++ last_line content))
          ≡ parsed (FileEdit.create (trim path) content)
    at_content [] =
        ap (λ t. parse_single_block (text "CREATE " ++ t)) (append-nil path)
        ∙ single_line (text "CREATE ") path is_path create_solid (_, _, refl) create_line
        ∙ create_header path []
    at_content (b ∷ t) =
        by_header-line (text "CREATE ") path (b ∷ t) is_path create_solid (_, _, refl) create_line
        ∙ create_header path (b ∷ t)

delete-printed :
    (path : Text)
    → IsPath path
    → parse_single_block (trim (print_edit (FileEdit.delete path))) ≡ parsed (FileEdit.delete path)
delete-printed path is_path =
    ap parse_single_block (header_of (text "DELETE ") path is_path delete_solid (_, _, refl))
    ∙ single_line (text "DELETE ") path is_path delete_solid (_, _, refl) delete_line
    ∙ delete_header path []
    ∙ ap (λ t. parsed (FileEdit.delete t)) (trim_trimmed path is_path.trimmed)

pub parse_single_block-print_edit :
    (e : FileEdit) → IsPrintable e → parse_single_block (trim (print_edit e)) ≡ parsed e
parse_single_block-print_edit (FileEdit.edit path old new) h = edit-printed path old new h
parse_single_block-print_edit (FileEdit.create path content) (is_path, field) =
    create-printed path content is_path field.0
parse_single_block-print_edit (FileEdit.delete path) h = delete-printed path h
