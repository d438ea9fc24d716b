-- ===== src/VirtGit/Workspace.antt =====
-- crates/virt-git/src/workspace.rs: an agent's workspace, its commits, and what it has changed.
-- Child modules hold fork and merge, and what is proved.
pub mod Merge
pub mod Changes
pub mod Once
pub mod Sound
pub mod Reached
use alpha_swarm.Prelude.{
  ℕ, zero, suc, ◌+◌, ◌-◌, Text, text, text_eq, List, [], ◌∷◌, ◌++◌, Option, none, some, Bool, true,
  false, not, length, decimal, join, add_one_u32, if◌then◌else◌,
}
use alpha_swarm.Prelude.Maps.{Map, get, has_key}
use alpha_swarm.VirtGit.Store.{Primitives, MemoryBlobStore}
use alpha_swarm.VirtGit.Tree.{
  TreeSnapshot, new_tree, from_files, read_string, hash, exists, list_files,
}
use alpha_swarm.VirtGit.Tree
use alpha_swarm.VirtGit.Diff.{FileDiff, diff_trees, format_diff}

pub record CommitInfo : Type 0 where
  pub id : Text
  pub tree_hash : Text
  pub parent : Option Text
  pub message : Text
  pub timestamp : ℕ

pub record VirtWorkspace : Type 0 where
  pub base : TreeSnapshot
  pub working : TreeSnapshot
  pub commits : List CommitInfo
  pub next_commit : ℕ

abbrev pub new_workspace : VirtWorkspace
new_workspace = record { base = new_tree; working = new_tree; commits = []; next_commit = 1 }

unfoldable pub workspace_of :
    Primitives → List (Text × Text) → MemoryBlobStore → VirtWorkspace × MemoryBlobStore
unfolding from_files
workspace_of p files store =
    let (tree, store') = from_files p files store in
    (record { base = tree; working = tree; commits = []; next_commit = 1 }, store')

unfoldable pub load_file :
    Primitives → Text → Text → VirtWorkspace × MemoryBlobStore → VirtWorkspace × MemoryBlobStore
unfolding Tree.insert_file
load_file p path content (ws, store) =
    let (base, store1) = Tree.insert_file p path content (ws.base, store) in
    let (working, store2) = Tree.insert_file p path content (ws.working, store1) in
    (record ws { base = base; working = working }, store2)

unfoldable pub read_file : MemoryBlobStore → Text → VirtWorkspace → Option Text
unfolding read_string
read_file store path ws = read_string store path ws.working

unfoldable pub write_file :
    Primitives → Text → Text → VirtWorkspace × MemoryBlobStore → VirtWorkspace × MemoryBlobStore
unfolding Tree.insert_file
write_file p path content (ws, store) =
    let (working, store') = Tree.insert_file p path content (ws.working, store) in
    (record ws { working = working }, store')

unfoldable pub delete_file : Text → VirtWorkspace → VirtWorkspace
unfolding Tree.remove_file
delete_file path ws = record ws { working = (Tree.remove_file path ws.working).1 }

abbrev pub file_exists : Text → VirtWorkspace → Bool
file_exists path ws = exists path ws.working

abbrev pub changed_entry : Text → Text → Option Text → List Text
changed_entry path hash (some base_hash) = if text_eq base_hash hash then [] else path ∷ []
changed_entry path hash none = path ∷ []

abbrev pub changed_entries : Map Text → Map Text → List Text
changed_entries base [] = []
changed_entries base ((path, hash) ∷ work) =
    changed_entry path hash (get path base) ++ changed_entries base work

abbrev pub removed_entries : Map Text → Map Text → List Text
removed_entries [] work = []
removed_entries ((path, hash) ∷ base) work =
    (if has_key path work then [] else path ∷ []) ++ removed_entries base work

unfoldable pub diff_entries : VirtWorkspace → List Text
diff_entries ws =
    changed_entries ws.base.entries ws.working.entries
    ++ removed_entries ws.base.entries ws.working.entries

abbrev pub is_empty {ℓ} : {A : Type ℓ} → List A → Bool
is_empty [] = true
is_empty (a ∷ as') = false

unfoldable pub has_changes : VirtWorkspace → Bool
unfolding diff_entries
has_changes ws = not (is_empty (diff_entries ws))

unfoldable pub diff : Primitives → MemoryBlobStore → VirtWorkspace → List FileDiff
unfolding diff_trees
diff p store ws = diff_trees p store ws.base ws.working

unfoldable pub diff_text : Primitives → MemoryBlobStore → VirtWorkspace → Text
unfolding diff format_diff
diff_text p store ws = format_diff (diff p store ws)

abbrev last_id : List CommitInfo → Option Text
last_id [] = none
last_id (c ∷ []) = some c.id
last_id (c ∷ d ∷ cs) = last_id (d ∷ cs)

abbrev zeros : ℕ → Text
zeros zero = []
zeros (suc n) = text "0" ++ zeros n

-- `{:04}`: at least four digits.
unfoldable pub padded : ℕ → Text
unfolding decimal
padded n = let digits = decimal n in zeros (4 - length digits) ++ digits

-- `now` is the system's time.
unfoldable pub commit : Primitives → ℕ → Text → VirtWorkspace → CommitInfo × VirtWorkspace
unfolding hash padded
commit p now message ws =
    let (tree_hash, working) = hash p ws.working in
    let commit : CommitInfo = record {
      id = text "commit-" ++ padded ws.next_commit;
      tree_hash = tree_hash;
      parent = last_id ws.commits;
      message = message;
      timestamp = now;
    } in
    (
      commit,
      record {
        base = working;
        working = working;
        commits = ws.commits ++ (commit ∷ []);
        next_commit = add_one_u32 ws.next_commit;
      },
    )

abbrev yes_no : Bool → Text
yes_no true = text "true"
yes_no false = text "false"

unfoldable pub summary : VirtWorkspace → Text
unfolding join decimal has_changes
summary ws =
    text "VirtWorkspace Summary:"
    ++ ((10 ∷ [])
        ++ (text "- Files in working tree: "
            ++ (join (text ", ") (list_files ws.working)
                ++ ((10 ∷ [])
                    ++ (text "- Has uncommitted changes: "
                        ++ (yes_no (has_changes ws)
                            ++ ((10 ∷ [])
                                ++ (text "- Number of commits: "
                                    ++ decimal (length ws.commits)))))))))
