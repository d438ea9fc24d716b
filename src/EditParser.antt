-- ===== src/EditParser.antt =====
-- crates/edit-parser/src/lib.rs: the blocks of a model's answer as file edits. `str` methods that
-- trim are `Prelude.Slices`'s; `&body[from..to]` panics when the end is before the start.
pub mod Actions
pub mod Loop
pub mod Panics
pub mod Agree
pub mod Print
mod Samples
mod Witnesses
use alpha_swarm.Prelude.{
  ℕ, zero, suc, ◌+◌, Text, text, List, [], ◌∷◌, ◌++◌, Option, none, some, text_find, drop, slice,
  strip_prefix, take, trim, length,
}

pub data FileEdit : Type 0 where
  edit : (path old new : Text) → FileEdit
  create : (path content : Text) → FileEdit
  delete : (path : Text) → FileEdit

-- What a parse gives: `Ok`, `Err` with its `ParseError`, or a panic; the loops have fuel.
pub data Parse {ℓ} (A : Type ℓ) : Type ℓ where
  parsed : A → Parse A
  failed : (error : Text) → Parse A
  panics out_of_fuel : Parse A

abbrev pub newline : Text
newline = text "\n"

abbrev pub old_marker : Text
old_marker = text "--- OLD"

abbrev pub new_marker : Text
new_marker = text "--- NEW"

-- What both markers bound, trimmed.
abbrev pub edit_of : Text → Text → Option Text → Parse FileEdit
edit_of path after_new none = panics
edit_of path after_new (some old) = parsed (FileEdit.edit path (trim old) (trim after_new))

abbrev pub at_markers : Text → Text → Option ℕ → Option ℕ → Parse FileEdit
at_markers path body none new_start =
    failed (text "EDIT block for " ++ (path ++ text " missing --- OLD marker"))
at_markers path body (some old_start) none =
    failed (text "EDIT block for " ++ (path ++ text " missing --- NEW marker"))
at_markers path body (some old_start) (some new_start) =
    edit_of path (drop (new_start + 7) body) (slice (old_start + 7) new_start body)

unfoldable pub parse_edit_block : Text → Text → Parse FileEdit
unfolding text_find trim
parse_edit_block path body =
    at_markers path body (text_find old_marker body) (text_find new_marker body)

unfoldable pub header_at : Text → Option ℕ → Text × Text
unfolding trim
header_at block none = (trim block, [])
header_at block (some first_newline) =
    (trim (take first_newline block), drop (first_newline + 1) block)

-- The first line, trimmed, and what follows it.
unfoldable pub header_and_body : Text → Text × Text
unfolding text_find header_at
header_and_body block = header_at block (text_find newline block)

-- The path behind the first of the three words that the header begins with.
unfoldable pub of_kind : Text → Text → Option Text → Option Text → Option Text → Parse FileEdit
unfolding trim
of_kind header body (some path) created deleted = parse_edit_block (trim path) body
of_kind header body none (some path) deleted = parsed (FileEdit.create (trim path) body)
of_kind header body none none (some path) = parsed (FileEdit.delete (trim path))
of_kind header body none none none = failed (text "Unknown edit block type: " ++ header)

unfoldable pub by_header : Text → Text → Parse FileEdit
unfolding of_kind strip_prefix
by_header header body =
    of_kind header body (strip_prefix (text "EDIT ") header) (strip_prefix (text "CREATE ") header)
      (strip_prefix (text "DELETE ") header)

unfoldable pub parse_single_block : Text → Parse FileEdit
unfolding header_and_body by_header trim
parse_single_block block = let (header, body) = header_and_body block in by_header header body

-- The next block of what is left of the answer, trimmed: none, one that is not closed, or a closed
-- one with what follows it.
pub data Cut : Type 0 where
  no_block : Cut
  open_block : (block : Text) → Cut
  closed_block : (block rest : Text) → Cut

abbrev pub cut_close : Text → Option ℕ → Cut
cut_close after none = open_block (trim after)
cut_close after (some end_offset) =
    closed_block (trim (take end_offset after)) (drop (end_offset + 3) after)

abbrev pub cut_open : Text → Option ℕ → Cut
cut_open rest none = no_block
cut_open rest (some start) =
    let after = drop (start + 3) rest in cut_close after (text_find (text ">>>") after)

unfoldable pub next_block : Text → Cut
unfolding text_find trim
next_block rest = cut_open rest (text_find (text "<<<") rest)

abbrev pub salvage_as : List FileEdit → Parse FileEdit → Parse (List FileEdit)
salvage_as edits (parsed e) = parsed (edits ++ (e ∷ []))
salvage_as edits panics = panics
salvage_as edits _ = parsed edits

-- An unclosed block is an edit when it can be parsed.
unfoldable pub salvage : List FileEdit → Text → Parse (List FileEdit)
unfolding parse_single_block
salvage edits [] = parsed edits
salvage edits (b ∷ block) = salvage_as edits (parse_single_block (b ∷ block))

abbrev pub Loop : Type 0
Loop = Text → List FileEdit → Parse (List FileEdit)

abbrev pub push_edit : Loop → Text → List FileEdit → Parse FileEdit → Parse (List FileEdit)
push_edit again rest edits (parsed e) = again rest (edits ++ (e ∷ []))
push_edit again rest edits (failed error) = failed error
push_edit again rest edits panics = panics
push_edit again rest edits out_of_fuel = out_of_fuel

unfoldable pub edits_round : Loop → List FileEdit → Cut → Parse (List FileEdit)
unfolding parse_single_block salvage
edits_round again edits no_block = parsed edits
edits_round again edits (open_block block) = salvage edits block
edits_round again edits (closed_block block rest) =
    push_edit again rest edits (parse_single_block block)

unfoldable pub edits_loop : ℕ → Text → List FileEdit → Parse (List FileEdit)
unfolding next_block edits_round
edits_loop zero rest edits = out_of_fuel
edits_loop (suc fuel) rest edits = edits_round (edits_loop fuel) edits (next_block rest)

unfoldable pub parse_edits : Text → Parse (List FileEdit)
unfolding edits_loop
parse_edits response = edits_loop (suc (length response)) response []
