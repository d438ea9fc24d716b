-- ===== src/VirtGit/Workspace/Once.antt =====
-- No operation gives a working tree a path twice.
use alpha_swarm.Prelude.{
  Text, List, [], ◌∷◌, Option, none, some, Distinct, Option-cases, inl, inr, Bool-cases,
}
use alpha_swarm.Prelude.Maps.{get, keys, Distinct-insert, Distinct-remove}
use alpha_swarm.VirtGit.Store.{Primitives, MemoryBlobStore, get_blob}
use alpha_swarm.VirtGit.Tree.{
  TreeSnapshot, new_tree, hash, add_file, add_files, from_files, exists, read, read_string,
}
use alpha_swarm.VirtGit.Tree
use alpha_swarm.VirtGit.Workspace.Merge.{Merging, Sides, take_theirs, merge_path, merge_paths}
use alpha_swarm.VirtGit.Workspace.Merge.Conflicts.{they_changed, merge_path_eq}

pub insert_file-Distinct :
    (p : Primitives) (path content : Text) (t : TreeSnapshot × MemoryBlobStore)
    → Distinct (keys t.0.entries)
    → Distinct (keys (Tree.insert_file p path content t).0.entries)
unfolding Tree.insert_file
insert_file-Distinct p path content t d =
    Distinct-insert path (p.content_hash content) t.0.entries d

pub remove_file-Distinct :
    (path : Text) (t : TreeSnapshot)
    → Distinct (keys t.entries)
    → Distinct (keys (Tree.remove_file path t).1.entries)
unfolding Tree.remove_file
remove_file-Distinct path t d = Distinct-remove path t.entries d

module _ (p : Primitives) (their_store : MemoryBlobStore) (sides : Sides) where
  take_theirs-Distinct :
      (path : Text) (o : Option Text) (m : Merging)
      → Distinct (keys m.working.entries)
      → Distinct (keys (take_theirs p their_store path o m).working.entries)
  unfolding take_theirs
  take_theirs-Distinct path none m d = remove_file-Distinct path m.working d
  take_theirs-Distinct path (some h) m d = elim (Option-cases (get_blob h their_store)) [
    | inl lost ↦ rw (lost, take_theirs) d
    | inr (content, found) ↦
        rw (found, take_theirs) (insert_file-Distinct p path content (m.working, m.store) d)
  ]

  merge_path-Distinct :
      (path : Text) (m : Merging)
      → Distinct (keys m.working.entries)
      → Distinct (keys (merge_path p their_store sides path m).working.entries)
  merge_path-Distinct path m d = elim (Bool-cases (they_changed sides path)) [
    | inl changed ↦
        rw (merge_path_eq p their_store sides path m, changed)
          (take_theirs-Distinct path (get path sides.theirs) (record m { conflicts = _ }) d)
    | inr same ↦ rw (merge_path_eq p their_store sides path m, same) d
  ]

  pub merge_paths-Distinct :
      (paths : List Text) (m : Merging)
      → Distinct (keys m.working.entries)
      → Distinct (keys (merge_paths p their_store sides paths m).working.entries)
  unfolding merge_paths
  merge_paths-Distinct [] m d = d
  merge_paths-Distinct (path ∷ paths) m d =
      merge_paths-Distinct paths (merge_path p their_store sides path m)
        (merge_path-Distinct path m d)
