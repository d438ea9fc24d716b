-- ===== src/VirtGit/Workspace/Merge/Conflicts.antt =====
-- Which paths a merge visits, and which it reports as conflicts.
use alpha_swarm.Prelude.{
  Text, text_eq, text_eq_iff, List, [], ◌∷◌, ◌++◌, Option, none, some, Bool, true, not, ◌&&◌, ◌||◌,
  ◌≡◌, refl, ap, arith, Bool-cases, inl, inr, if◌then◌else◌, contains, contains-append,
}
use alpha_swarm.Prelude.Maps.{Map, get, keys, has_key, has_key-get, has_key-insert}
use alpha_swarm.Prelude.Maps
use alpha_swarm.VirtGit.Store.{Primitives, MemoryBlobStore}
use alpha_swarm.VirtGit.Workspace.{VirtWorkspace}
use alpha_swarm.VirtGit.Workspace.Merge.{
  Merging, Sides, same_hash, take_theirs, merge_path, merge_paths, insert_all, all_paths, merge,
}

-- They changed the path since the base, and so did we.
abbrev pub they_changed : Sides → Text → Bool
they_changed sides q = not (same_hash (get q sides.theirs) (get q sides.base))

abbrev pub we_changed : Sides → Text → Bool
we_changed sides q = not (same_hash (get q sides.ours) (get q sides.base))

-- The entries that a merge compares.
abbrev pub sides_of : VirtWorkspace → VirtWorkspace → Sides
sides_of ws theirs = record {
  base = ws.base.entries;
  ours = ws.working.entries;
  theirs = theirs.working.entries;
}

has_key-insert_all :
    (paths : List Text) (set : Map (Unit {0})) (q : Text)
    → has_key q (insert_all paths set) ≡ (contains paths q || has_key q set)
has_key-insert_all [] set q = refl
has_key-insert_all (path ∷ paths) set q =
    ground
      (arith, has_key-insert_all paths (Maps.insert path tt set) q, has_key-insert path q tt set)

-- Every path that they changed is visited.
pub they_changed-all_paths :
    (sides : Sides) (q : Text) → they_changed sides q ≡ true → contains (all_paths sides) q ≡ true
unfolding all_paths
they_changed-all_paths sides q h = ground (
  arith,
  has_key-insert_all (keys sides.theirs)
      (insert_all (keys sides.ours) (insert_all (keys sides.base) [])) q,
  has_key-insert_all (keys sides.ours) (insert_all (keys sides.base) []) q,
  has_key-insert_all (keys sides.base) [] q,
  has_key-get q sides.theirs,
  has_key-get q sides.base,
)

module _ (p : Primitives) (their_store : MemoryBlobStore) (sides : Sides) where
  -- What one path does to the conflicts.
  abbrev pub conflicts_after : Text → Merging → List Text
  conflicts_after path m =
      if they_changed sides path && we_changed sides path
      then m.conflicts ++ (path ∷ [])
      else m.conflicts

  pub merge_path_eq :
      (path : Text) (m : Merging)
      → merge_path p their_store sides path m ≡ (
          if they_changed sides path
          then take_theirs p their_store path
              (get path sides.theirs)
              (record m { conflicts = conflicts_after path m })
          else m)
  unfolding merge_path
  merge_path_eq path m = ground arith

  take_theirs_conflicts :
      (path : Text) (o : Option Text) (m : Merging)
      → (take_theirs p their_store path o m).conflicts ≡ m.conflicts
  unfolding take_theirs
  take_theirs_conflicts path none m = refl
  take_theirs_conflicts path (some h) m = ground arith

  merge_path_conflicts :
      (path : Text) (m : Merging)
      → (merge_path p their_store sides path m).conflicts ≡ conflicts_after path m
  merge_path_conflicts path m = ground (
    arith,
    merge_path_eq path m,
    take_theirs_conflicts path (get path sides.theirs)
        (record m { conflicts = conflicts_after path m }),
  )

  contains-conflicts_after :
      (path : Text) (m : Merging) (q : Text)
      → contains (conflicts_after path m) q ≡ (
          contains m.conflicts q
          || (text_eq path q && (they_changed sides q && we_changed sides q)))
  contains-conflicts_after path m q = elim (Bool-cases (text_eq path q)) [
    | inl e ↦
        rw
          (
            ap (they_changed sides) ((text_eq_iff path q).0 e),
            ap (we_changed sides) ((text_eq_iff path q).0 e),
          )
          (ground (arith, contains-append m.conflicts (path ∷ []) q, e))
    | inr e ↦ ground (arith, contains-append m.conflicts (path ∷ []) q, e)
  ]

  merge_paths_conflicts :
      (paths : List Text) (m : Merging) (q : Text)
      → contains (merge_paths p their_store sides paths m).conflicts q ≡ (
          contains m.conflicts q
          || (contains paths q && (they_changed sides q && we_changed sides q)))
  unfolding merge_paths
  merge_paths_conflicts [] m q = ground arith
  merge_paths_conflicts (path ∷ paths) m q =
      rw
        (
          merge_paths_conflicts paths (merge_path p their_store sides path m) q,
          merge_path_conflicts path m,
          contains-conflicts_after path m q,
        )
        (ground arith)

-- A merge reports a path as a conflict just when both sides changed it since the base.
pub merge_conflicts :
    (p : Primitives) (ours theirs : VirtWorkspace × MemoryBlobStore) (q : Text)
    → contains (merge p ours theirs).conflicts q
      ≡ (they_changed (sides_of ours.0 theirs.0) q && we_changed (sides_of ours.0 theirs.0) q)
unfolding merge
merge_conflicts p ours theirs q =
    let sides = sides_of ours.0 theirs.0 in
    rw
      (merge_paths_conflicts p theirs.1 sides (all_paths sides)
        (record { working = ours.0.working; store = ours.1; conflicts = [] }) q)
      (ground (arith, they_changed-all_paths sides q))
