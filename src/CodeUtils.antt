-- ===== src/CodeUtils.antt =====
-- crates/agent-core/src/code_utils.rs: signatures, file names and `fuzzy_replace`.
pub mod Window
pub mod Replace
mod Witnesses
use alpha_swarm.Prelude.{
  ℕ, zero, suc, ◌+◌, ◌-◌, Text, text, text_eq, List, [], ◌∷◌, ◌++◌, map, filter, any, Option, none,
  some, Bool, true, false, not, ◌&&◌, ◌||◌, if◌then◌else◌, is_prefix, starts_with, text_contains,
  ends_with, lines, join, trim, take, length, split_whitespace,
}
use alpha_swarm.EditParser.{newline}

abbrev signature_starts : List Text
signature_starts =
    text "pub fn "
    ∷ text "fn "
    ∷ text "pub struct "
    ∷ text "struct "
    ∷ text "pub enum "
    ∷ text "enum "
    ∷ text "pub trait "
    ∷ text "trait "
    ∷ text "impl "
    ∷ text "pub async fn "
    ∷ text "pub type "
    ∷ text "pub const "
    ∷ []

unfoldable pub is_signature_line : Text → Bool
unfolding trim is_prefix
is_signature_line line = let t = trim line in any (starts_with t) signature_starts

unfoldable pub extract_signatures : Text → ℕ → List Text
unfolding lines is_signature_line trim
extract_signatures content max = map trim (take max (filter is_signature_line (lines content)))

abbrev pub code_extensions : List Text
code_extensions = text "rs" ∷ text "ts" ∷ text "js" ∷ text "go" ∷ text "py" ∷ []

unfoldable pub is_code_file : Text → Bool
unfolding ends_with
is_code_file path = any (λ ext. ends_with path (text "." ++ ext)) code_extensions

abbrev pub reject_patterns : List Text
reject_patterns =
    text "path/to/"
    ∷ text "example"
    ∷ text "your_"
    ∷ text "my_file"
    ∷ text "new_file.rs"
    ∷ text "old_file"
    ∷ text "{"
    ∷ text "<"
    ∷ text "..."
    ∷ text "file.ext"
    ∷ text "foo."
    ∷ text "bar."
    ∷ text "baz."
    ∷ text "test_file"
    ∷ []

-- `to_lowercase` is an argument.
unfoldable pub is_valid_file_path : (Text → Text) → Text → Bool
unfolding trim text_contains is_prefix text_eq
is_valid_file_path lowercase path =
    let trimmed = trim path in
    not (text_eq trimmed [])
    && (not (any (text_contains (lowercase trimmed)) reject_patterns)
        && (text_contains trimmed (text ".") && not (starts_with trimmed (text "/"))))

-- `str::replace` with a pattern that is not empty; the number is what is left of the last match.
unfoldable pub replace_from : Text → Text → ℕ → Text → Text
unfolding is_prefix
replace_from pattern with_text left [] = []
replace_from pattern with_text (suc left) (b ∷ bs) = replace_from pattern with_text left bs
replace_from pattern with_text zero (b ∷ bs) = elim (is_prefix pattern (b ∷ bs)) [
  | true ↦ with_text ++ replace_from pattern with_text (length pattern - 1) bs
  | false ↦ b ∷ replace_from pattern with_text zero bs
]

unfoldable pub replace : Text → Text → Text → Text
unfolding replace_from
replace pattern with_text t = replace_from pattern with_text 0 t

unfoldable pub unix_lines : Text → Text
unfolding replace
unix_lines t = replace (text "\r\n") newline t

-- `norm`: a line with its white space collapsed.
unfoldable pub collapsed : Text → Text
unfolding split_whitespace join
collapsed line = join (text " ") (split_whitespace line)

abbrev pub plus_one : Option ℕ → Option ℕ
plus_one none = none
plus_one (some n) = some (suc n)

unfoldable pub line_position : Text → List Text → Option ℕ
unfolding collapsed text_eq
line_position old_line [] = none
line_position old_line (l ∷ ls) =
    let later = line_position old_line ls in
    if text_eq (collapsed l) old_line then some 0 else plus_one later

-- The lines that begin here match the old lines, and there are enough of them.
unfoldable pub fits : List Text → List Text → Bool
unfolding collapsed text_eq
fits [] ls = true
fits (o ∷ os) [] = false
fits (o ∷ os) (l ∷ ls) = text_eq (collapsed l) o && fits os ls

unfoldable pub head_fits : List Text → Text → Bool
unfolding collapsed text_eq
head_fits [] l = true
head_fits (o ∷ os) l = text_eq (collapsed l) o

unfoldable pub window_position : List Text → List Text → Option ℕ
unfolding fits head_fits
window_position old_lines [] = none
window_position old_lines (l ∷ ls) =
    let later = window_position old_lines ls in
    if head_fits old_lines l && fits old_lines (l ∷ ls) then some 0 else plus_one later

abbrev pub skip : ℕ → List Text → List Text
skip zero ls = ls
skip (suc n) [] = []
skip (suc n) (l ∷ ls) = skip n ls

unfoldable pub put_lines : List Text → List Text → ℕ → Option ℕ → Option Text
unfolding join
put_lines content_lines new_lines size none = none
put_lines content_lines new_lines size (some start) =
    some
      (join newline (take start content_lines ++ (new_lines ++ skip (start + size) content_lines)))

unfoldable pub located : List Text → List Text → Option ℕ
unfolding line_position window_position
located (o ∷ []) content_lines = line_position o content_lines
located old_lines content_lines = window_position old_lines content_lines

-- The new text in place of the old one, both trimmed, in a file with unified line ends.
unfoldable pub replace_trimmed : Text → Text → Text → Option Text
unfolding replace text_contains lines collapsed located put_lines
replace_trimmed content_norm [] new_trimmed = none
replace_trimmed content_norm (b ∷ old) new_trimmed =
    let old_lines = map collapsed (lines (b ∷ old)) in
    if text_contains content_norm (b ∷ old)
    then some (replace (b ∷ old) new_trimmed content_norm)
    else put_lines (lines content_norm) (lines new_trimmed) (length old_lines)
        (located old_lines (lines content_norm))

unfoldable pub fuzzy_replace : Text → Text → Text → Option Text
unfolding unix_lines trim replace_trimmed
fuzzy_replace content old new =
    replace_trimmed (unix_lines content) (trim (unix_lines old)) (trim (unix_lines new))
