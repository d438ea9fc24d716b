-- ===== src/VirtGit/Workspace/Merge.antt =====
-- crates/virt-git/src/workspace.rs: fork and the three-way merge.
pub mod Conflicts
pub mod Result
pub mod FastForward
use alpha_swarm.Prelude.{
  Text, text_eq, List, [], ◌∷◌, ◌++◌, Option, none, some, Bool, true, false, not, if◌then◌else◌,
}
use alpha_swarm.Prelude.Maps.{Map, get, keys}
use alpha_swarm.Prelude.Maps
use alpha_swarm.VirtGit.Store.{Primitives, MemoryBlobStore, get_blob}
use alpha_swarm.VirtGit.Tree.{TreeSnapshot}
use alpha_swarm.VirtGit.Tree
use alpha_swarm.VirtGit.Workspace.{VirtWorkspace}

unfoldable pub fork : VirtWorkspace → MemoryBlobStore → VirtWorkspace × MemoryBlobStore
fork ws store =
    (record { base = ws.working; working = ws.working; commits = []; next_commit = 1 }, store)

-- `Option<&BlobHash>` with `==`.
abbrev pub same_hash : Option Text → Option Text → Bool
same_hash none none = true
same_hash none (some b) = false
same_hash (some a) none = false
same_hash (some a) (some b) = text_eq a b

-- What the loop of `merge` changes.
pub record Merging : Type 0 where
  pub working : TreeSnapshot
  pub store : MemoryBlobStore
  pub conflicts : List Text

-- A copy of their content goes into our tree; content that their store lacks is passed over.
unfoldable pub take_theirs : Primitives → MemoryBlobStore → Text → Option Text → Merging → Merging
unfolding Tree.insert_file Tree.remove_file
take_theirs p their_store path none m = record m { working = (Tree.remove_file path m.working).1 }
take_theirs p their_store path (some hash) m = elim (get_blob hash their_store) [
  | none ↦ m
  | some content ↦
      let (working, store) = Tree.insert_file p path content (m.working, m.store) in
      record m { working = working; store = store }
]

-- The entries of the three trees before the merge.
pub record Sides : Type 0 where
  pub base : Map Text
  pub ours : Map Text
  pub theirs : Map Text

-- One path of the loop.
unfoldable pub merge_path : Primitives → MemoryBlobStore → Sides → Text → Merging → Merging
unfolding take_theirs
merge_path p their_store sides path m =
    let base_hash = get path sides.base in
    let our_hash = get path sides.ours in
    let their_hash = get path sides.theirs in
    let we_changed = not (same_hash our_hash base_hash) in
    let they_changed = not (same_hash their_hash base_hash) in
    if not they_changed
    then m
    else if not we_changed
    then take_theirs p their_store path their_hash m
    else take_theirs p their_store path their_hash
        (record m { conflicts = m.conflicts ++ (path ∷ []) })

unfoldable pub merge_paths : Primitives → MemoryBlobStore → Sides → List Text → Merging → Merging
unfolding merge_path
merge_paths p their_store sides [] m = m
merge_paths p their_store sides (path ∷ paths) m =
    merge_paths p their_store sides paths (merge_path p their_store sides path m)

-- A `BTreeSet<String>` is a map into the unit type.
abbrev pub insert_all : List Text → Map (Unit {0}) → Map (Unit {0})
insert_all [] set = set
insert_all (path ∷ paths) set = insert_all paths (Maps.insert path tt set)

unfoldable pub all_paths : Sides → List Text
unfolding Maps.insert
all_paths sides = keys (
    insert_all (keys sides.theirs) (insert_all (keys sides.ours) (insert_all (keys sides.base) [])))

pub record Merged : Type 0 where
  pub workspace : VirtWorkspace
  pub store : MemoryBlobStore
  pub conflicts : List Text

unfoldable pub merge :
    Primitives → VirtWorkspace × MemoryBlobStore → VirtWorkspace × MemoryBlobStore → Merged
unfolding merge_paths all_paths
merge p (ws, store) (theirs, their_store) =
    let sides : Sides = record {
      base = ws.base.entries;
      ours = ws.working.entries;
      theirs = theirs.working.entries;
    } in
    let m =
      merge_paths p their_store sides (all_paths sides)
        (record { working = ws.working; store = store; conflicts = [] }) in
    record {
      workspace = record ws { working = m.working };
      store = m.store;
      conflicts = m.conflicts;
    }
