-- ===== src/VirtGit/Workspace/Reached.antt =====
-- The workspaces that a sequence of operations reaches, with the store beside each, and what holds
-- of all of them.
use alpha_swarm.Prelude.{
  ℕ, Text, is_utf8, List, some, true, ◌≡◌, refl, Option-cases, inl, inr, not_both,
}
use alpha_swarm.Prelude.Maps.{get, has_key, has_key-get}
use alpha_swarm.VirtGit.Store.{Primitives, MemoryBlobStore, new_store}
use alpha_swarm.VirtGit.Store.Addressing.{CollisionFree, new_store-IsAddressed}
use alpha_swarm.VirtGit.Tree.{read_string}
use alpha_swarm.VirtGit.Tree.Reads.{read_at, new_tree-IsWhole}
use alpha_swarm.VirtGit.Workspace.{
  VirtWorkspace, new_workspace, workspace_of, load_file, read_file, write_file, delete_file,
  file_exists, commit,
}
use alpha_swarm.VirtGit.Workspace.Sound.{
  AllUtf8, IsSound, made-IsSound, loaded-IsSound, wrote-IsSound, deleted-IsSound, committed-IsSound,
  forked-IsSound, merged-IsSound,
}
use alpha_swarm.VirtGit.Workspace.Merge.{merge, fork}

-- A Rust `&str` is valid UTF-8.
pub data Reached (p : Primitives) : VirtWorkspace × MemoryBlobStore → Type 0 where
  started : Reached p (new_workspace, new_store)
  made :
      {s : VirtWorkspace × MemoryBlobStore} (files : List (Text × Text))
      → AllUtf8 files
      → Reached p s
      → Reached p (workspace_of p files s.1)
  loaded :
      {s : VirtWorkspace × MemoryBlobStore} (path content : Text)
      → is_utf8 content ≡ true
      → Reached p s
      → Reached p (load_file p path content s)
  wrote :
      {s : VirtWorkspace × MemoryBlobStore} (path content : Text)
      → is_utf8 content ≡ true
      → Reached p s
      → Reached p (write_file p path content s)
  deleted :
      {s : VirtWorkspace × MemoryBlobStore} (path : Text)
      → Reached p s
      → Reached p (delete_file path s.0, s.1)
  committed :
      {s : VirtWorkspace × MemoryBlobStore} (now : ℕ) (message : Text)
      → Reached p s
      → Reached p ((commit p now message s.0).1, s.1)
  forked : {s : VirtWorkspace × MemoryBlobStore} → Reached p s → Reached p (fork s.0 s.1)
  merged :
      {s t : VirtWorkspace × MemoryBlobStore}
      → Reached p s
      → Reached p t
      → Reached p ((merge p s t).workspace, (merge p s t).store)

-- Every workspace that a sequence of operations reaches can be read from its store, base and
-- working tree alike, and has each path once, if no two contents have one hash.
pub Reached-IsSound :
    (p : Primitives) (s : VirtWorkspace × MemoryBlobStore)
    → CollisionFree p
    → Reached p s
    → IsSound p s
Reached-IsSound p _ distinct started = record {
  addressed = new_store-IsAddressed p;
  base_whole = new_tree-IsWhole new_store;
  working_whole = new_tree-IsWhole new_store;
  base_distinct = tt;
  working_distinct = tt;
}
Reached-IsSound p _ distinct (made {s = s} files valid r) =
    made-IsSound p distinct files s valid (Reached-IsSound p s distinct r)
Reached-IsSound p _ distinct (loaded {s = s} path content valid r) =
    loaded-IsSound p distinct path content s valid (Reached-IsSound p s distinct r)
Reached-IsSound p _ distinct (wrote {s = s} path content valid r) =
    wrote-IsSound p distinct path content s valid (Reached-IsSound p s distinct r)
Reached-IsSound p _ distinct (deleted {s = s} path r) =
    deleted-IsSound p distinct path s (Reached-IsSound p s distinct r)
Reached-IsSound p _ distinct (committed {s = s} now message r) =
    committed-IsSound p distinct now message s (Reached-IsSound p s distinct r)
Reached-IsSound p _ distinct (forked {s = s} r) =
    forked-IsSound p distinct s (Reached-IsSound p s distinct r)
Reached-IsSound p _ distinct (merged {s = s} {t = t} r q) =
    merged-IsSound p distinct s t (Reached-IsSound p s distinct r) (Reached-IsSound p t distinct q)

-- In a workspace that a sequence of operations reaches, every file that exists can be read as text,
-- if no two contents have one hash.
pub Reached-read_file :
    (p : Primitives) (s : VirtWorkspace × MemoryBlobStore) (path : Text)
    → CollisionFree p
    → Reached p s
    → file_exists path s.0 ≡ true
    → (c : Text) × (read_file s.1 path s.0 ≡ some c)
unfolding read_file read_string
Reached-read_file p s path distinct reached there_is =
    let ok = Reached-IsSound p s distinct reached in
    elim (Option-cases (get path s.0.working.entries)) [
      | inl absent ↦
          elim (not_both (has_key path s.0.working.entries) there_is
            ((has_key-get path s.0.working.entries).1 absent)) [ ]
      | inr (h, named) ↦
          let (c, found) = ok.working_whole path h named in
          (
            c,
            rw (read_at s.1 path s.0.working (some h) named, found, (ok.addressed h c found).1)
                refl,
          )
    ]
