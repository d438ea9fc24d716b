-- ===== src/EditParser/Print.antt =====
-- An answer written in the format that crates/edit-parser/src/lib.rs documents, and its parse.
pub mod Block
pub mod RoundTrip
use mathlib.Core.List.{append-nil, append_assoc}
use alpha_swarm.Prelude.{
  ℕ, zero, suc, ◌+◌, ◌≤◌, ◌<◌, Text, text, List, [], ◌∷◌, ◌++◌, map, Option, none, some, Bool, true,
  false, ◌≡◌, ◌≢◌, refl, sym, ◌∙◌, ap, subst, arith, strip_prefix, text_find, is_prefix,
  is_prefix-append, trim, trim_end, drop, take, slice, length, chars, is_space, text_eq,
  text_find_here, text_find_joined, text_find_behind, text_find_byte, text_find_byte_joined,
  drop-length, take-length, drop_behind, take_behind, drop_line, IsTrimmed, StartsChar, HeadIsSolid,
  EndIsKept, trim_end-append, trim_end_kept, trim_end_newline, trim_newline, trim_after_newline,
  trim_solid, trim_trimmed, chars-append, kept-newline, HeadIsSolid-append,
}
use alpha_swarm.EditParser.{
  FileEdit, Parse, parsed, old_marker, new_marker, newline, edit_of, at_markers, parse_edit_block,
  header_at, header_and_body, of_kind, by_header, parse_single_block, Cut, no_block, open_block,
  closed_block, cut_open, cut_close, next_block, salvage_as, salvage, push_edit, edits_round,
  edits_loop, parse_edits,
}
use alpha_swarm.EditParser.Loop.{next_block-IsShorter, IsShorter}

-- The lines between the angle brackets, without the last line's end.
abbrev pub print_edit : FileEdit → Text
print_edit (FileEdit.edit path old new) =
    text "EDIT "
    ++ (path ++ (10 ∷ (text "--- OLD" ++ (10 ∷ (old ++ (10 ∷ (text "--- NEW" ++ (10 ∷ new))))))))
print_edit (FileEdit.create path content) = text "CREATE " ++ (path ++ (10 ∷ content))
print_edit (FileEdit.delete path) = text "DELETE " ++ path

-- Blocks with prose before each and at the end.
abbrev pub answer : List (Text × FileEdit) → Text → Text
answer [] end = end
answer ((prose, e) ∷ blocks) end =
    prose ++ (10 ∷ (text "<<<" ++ (print_edit e ++ (10 ∷ (text ">>>" ++ answer blocks end)))))

abbrev pub edits : List (Text × FileEdit) → List FileEdit
edits [] = []
edits ((prose, e) ∷ blocks) = e ∷ edits blocks

pub record IsPath (path : Text) : Type 0 where
  pub trimmed : IsTrimmed path
  pub nonempty : (b : ℕ) × (t : Text) × (path ≡ b ∷ t)
  pub one_line : text_find newline path ≡ none
  pub no_close : text_find (text ">>>") path ≡ none

abbrev pub IsField : Text → Type 0
IsField t = IsTrimmed t × (text_find (text ">>>") t ≡ none)

-- No white space around a field, no closing brackets in it, and no second marker in `old`.
abbrev pub IsPrintable : FileEdit → Type 0
IsPrintable (FileEdit.edit path old new) =
    IsPath path × IsField old × IsField new × (text_find new_marker old ≡ none)
IsPrintable (FileEdit.create path content) = IsPath path × IsField content
IsPrintable (FileEdit.delete path) = IsPath path

abbrev pub ArePrintable : List (Text × FileEdit) → Type 0
ArePrintable [] = Unit
ArePrintable ((prose, e) ∷ blocks) =
    (text_find (text "<<<") prose ≡ none) × IsPrintable e × ArePrintable blocks

-- What trimming leaves of a last line and the line end before it.
abbrev pub last_line : Text → Text
last_line [] = []
last_line (b ∷ t) = 10 ∷ b ∷ t

pub line_end :
    (a t : Text) → EndIsKept a → IsTrimmed t → trim_end (a ++ (10 ∷ t)) ≡ a ++ last_line t
line_end a [] h k = trim_end_newline a ∙ trim_end_kept a h ∙ sym (append-nil a)
line_end a (b ∷ t) h k =
    let kept : trim_end (10 ∷ b ∷ t) ≡ 10 ∷ b ∷ t =
      trim_end_kept (10 ∷ b ∷ t) (kept-newline b t k) in
    trim_end-append a (10 ∷ b ∷ t) refl (10, b ∷ t, kept) ∙ ap (λ r. a ++ r) kept

pub trim-last_line : (t : Text) → IsTrimmed t → trim (last_line t) ≡ t
trim-last_line [] h = trim_trimmed [] h
trim-last_line (b ∷ t) h = trim_after_newline (b ∷ t) h.starts_char ∙ trim_trimmed (b ∷ t) h

pub next_block-closed :
    (prose block rest : Text)
    → text_find (text "<<<") prose ≡ none
    → text_find (text ">>>") block ≡ none
    → next_block (prose ++ (10 ∷ (text "<<<" ++ (block ++ (10 ∷ (text ">>>" ++ rest))))))
      ≡ closed_block (trim block) rest
unfolding next_block
next_block-closed prose block rest h k =
    let after = block ++ (10 ∷ (text ">>>" ++ rest)) in
    let whole = prose ++ (10 ∷ (text "<<<" ++ after)) in
    ap (cut_open whole) (text_find_behind (text "<<<") prose 10 after refl h)
    ∙ ap (λ t. cut_close t (text_find (text ">>>") t)) (drop_behind prose 10 (text "<<<") after)
    ∙ ap (cut_close after) (text_find_behind (text ">>>") block 10 rest refl k)
    ∙ ap (λ t. closed_block (trim t) (drop (suc (length block) + 3) after))
        (take_behind block 10 (text ">>>" ++ rest))
    ∙ ap (λ t. closed_block t (drop (suc (length block) + 3) after)) (trim_newline block)
    ∙ ap (closed_block (trim block)) (drop_behind block 10 (text ">>>") rest)

header_and_body-line :
    (header body : Text)
    → text_find newline header ≡ none
    → header_and_body (header ++ (10 ∷ body)) ≡ (trim header, body)
unfolding header_and_body header_at
header_and_body-line header body h =
    let block = header ++ (10 ∷ body) in
    ap (header_at block) (text_find_byte header 10 body h)
    ∙ ap (λ t. (trim t, drop (length header + 1) block)) (take-length header (10 ∷ body))
    ∙ ap (λ t. (trim header, t)) (drop_line header 10 body)

pub header_and_body-one_line :
    (header : Text) → text_find newline header ≡ none → header_and_body header ≡ (trim header, [])
unfolding header_and_body header_at
header_and_body-one_line header h = ap (header_at header) h

strip_prefix-append : (p t : Text) → strip_prefix p (p ++ t) ≡ some t
unfolding strip_prefix
strip_prefix-append p t = rw (is_prefix-append p t) (ap some (drop-length p t))

pub edit_header :
    (path body : Text) → by_header (text "EDIT " ++ path) body ≡ parse_edit_block (trim path) body
unfolding by_header of_kind strip_prefix is_prefix
edit_header path body = refl

pub create_header :
    (path body : Text)
    → by_header (text "CREATE " ++ path) body ≡ parsed (FileEdit.create (trim path) body)
unfolding by_header of_kind strip_prefix is_prefix
create_header path body = refl

pub delete_header :
    (path body : Text)
    → by_header (text "DELETE " ++ path) body ≡ parsed (FileEdit.delete (trim path))
unfolding by_header of_kind strip_prefix is_prefix
delete_header path body = refl

-- A word and a path as a header.
pub header_of :
    (word path : Text)
    → IsPath path
    → HeadIsSolid (chars word)
    → ((b : ℕ) × (u : Text) × (word ≡ b ∷ u))
    → trim (word ++ path) ≡ word ++ path
header_of word path is_path h some_word =
    let (b, u, e) = some_word in
    let kept = trim_end_kept path is_path.trimmed.end_kept in
    let (c, v, f) = is_path.nonempty in
    trim_solid (word ++ path) (HeadIsSolid-append word path b u e h is_path.trimmed.starts_char)
    ∙ trim_end-append word path is_path.trimmed.starts_char (c, v, kept ∙ f)
    ∙ ap (λ t. word ++ t) kept

pub by_header-line :
    (word path body : Text)
    → IsPath path
    → HeadIsSolid (chars word)
    → ((b : ℕ) × (u : Text) × (word ≡ b ∷ u))
    → text_find newline word ≡ none
    → parse_single_block (word ++ (path ++ (10 ∷ body))) ≡ by_header (word ++ path) body
unfolding parse_single_block
by_header-line word path body is_path h some_word one_line =
    ap parse_single_block (sym (append_assoc word path (10 ∷ body)))
    ∙ ap (λ hb. by_header hb.0 hb.1)
        (header_and_body-line (word ++ path) body
          (text_find_byte_joined word 10 path one_line is_path.one_line))
    ∙ ap (λ t. by_header t body) (header_of word path is_path h some_word)

pub single_line :
    (word path : Text)
    → IsPath path
    → HeadIsSolid (chars word)
    → ((b : ℕ) × (u : Text) × (word ≡ b ∷ u))
    → text_find newline word ≡ none
    → parse_single_block (word ++ path) ≡ by_header (word ++ path) []
unfolding parse_single_block
single_line word path is_path h some_word one_line =
    ap (λ hb. by_header hb.0 hb.1)
      (header_and_body-one_line (word ++ path)
        (text_find_byte_joined word 10 path one_line is_path.one_line))
    ∙ ap (λ t. by_header t []) (header_of word path is_path h some_word)
