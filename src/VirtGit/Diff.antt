-- ===== src/VirtGit/Diff.antt =====
-- crates/virt-git/src/diff.rs: the files in which two trees differ.
pub mod Paths
use alpha_swarm.Prelude.{
  Text, text, text_eq, is_utf8, List, [], ◌∷◌, ◌++◌, map, Option, none, some, Bool, true, false,
  if◌then◌else◌, lines, join,
}
use alpha_swarm.Prelude.Maps.{Map, get, has_key, text_lt}
use alpha_swarm.VirtGit.Store.{Primitives, MemoryBlobStore, get_blob}
use alpha_swarm.VirtGit.Tree.{TreeSnapshot, read_string}

pub data DiffKind : Type 0 where
  added modified deleted : DiffKind

pub record FileDiff : Type 0 where
  pub path : Text
  pub kind : DiffKind
  pub patch : Text

abbrev or_default : Option Text → Text
or_default none = []
or_default (some t) = t

abbrev utf8_or_empty : Text → Text
utf8_or_empty bytes = if is_utf8 bytes then bytes else []

abbrev newline : Text
newline = 10 ∷ []

unfoldable pub text_diff : Primitives → Text → Text → Text → Text
text_diff p path old new =
    text "--- a/"
    ++ (path ++ (newline ++ (text "+++ b/" ++ (path ++ (newline ++ p.hunks old new)))))

abbrev plus_lines : List Text → Text
plus_lines [] = []
plus_lines (l ∷ ls) = text "+" ++ (l ++ (newline ++ plus_lines ls))

-- The patch of a file that is only in the new tree.
unfoldable pub added_patch : Text → Text → Text
unfolding lines
added_patch path content =
    text "--- /dev/null"
    ++ (newline ++ (text "+++ b/" ++ (path ++ (newline ++ plus_lines (lines content)))))

-- One entry of the old tree: modified, unchanged or deleted.
unfoldable pub diff_old : Primitives → MemoryBlobStore → Text → Text → Option Text → List FileDiff
unfolding text_diff is_utf8
diff_old p store path old_hash (some new_hash) =
    if text_eq new_hash old_hash
    then []
    else record {
      path = path;
      kind = DiffKind.modified;
      patch =
          text_diff p path (utf8_or_empty (or_default (get_blob old_hash store)))
            (utf8_or_empty (or_default (get_blob new_hash store)));
    }
      ∷ []
diff_old p store path old_hash none =
    record { path = path; kind = DiffKind.deleted; patch = [] } ∷ []

abbrev pub diff_olds : Primitives → MemoryBlobStore → Map Text → Map Text → List FileDiff
diff_olds p store [] new = []
diff_olds p store ((path, old_hash) ∷ old) new =
    diff_old p store path old_hash (get path new) ++ diff_olds p store old new

-- The files of the new tree that the old one lacks.
abbrev pub diff_news : MemoryBlobStore → Map Text → Map Text → TreeSnapshot → List FileDiff
diff_news store old [] new = []
diff_news store old ((path, new_hash) ∷ rest) new =
    let later = diff_news store old rest new in
    if has_key path old
    then later
    else record {
      path = path;
      kind = DiffKind.added;
      patch = added_patch path (or_default (read_string store path new));
    }
      ∷ later

-- `sort_by(|a, b| a.path.cmp(&b.path))`, which is stable.
abbrev pub insert_by_path : FileDiff → List FileDiff → List FileDiff
insert_by_path d [] = d ∷ []
insert_by_path d (e ∷ es) = if text_lt e.path d.path then e ∷ insert_by_path d es else d ∷ e ∷ es

abbrev pub sort_by_path : List FileDiff → List FileDiff
sort_by_path [] = []
sort_by_path (d ∷ ds) = insert_by_path d (sort_by_path ds)

unfoldable pub diff_trees :
    Primitives → MemoryBlobStore → TreeSnapshot → TreeSnapshot → List FileDiff
unfolding diff_old added_patch read_string text_lt
diff_trees p store old new =
    sort_by_path
      (diff_olds p store old.entries new.entries ++ diff_news store old.entries new.entries new)

unfoldable pub format_diff : List FileDiff → Text
unfolding join
format_diff diffs = join newline (map (λ d. d.patch) diffs)
