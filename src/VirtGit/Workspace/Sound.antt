-- ===== src/VirtGit/Workspace/Sound.antt =====
-- What every operation of a workspace keeps: both trees can be read from the store beside it, and
-- have each path once.
use alpha_swarm.VirtGit.Workspace.Once.{
  insert_file-Distinct, remove_file-Distinct, merge_paths-Distinct,
}
use alpha_swarm.Prelude.{ℕ, Text, is_utf8, List, [], ◌∷◌, some, true, ◌≡◌, Distinct}
use alpha_swarm.Prelude.Maps.{Map, keys}
use alpha_swarm.VirtGit.Store.{Primitives, MemoryBlobStore, get_blob}
use alpha_swarm.VirtGit.Store.Addressing.{CollisionFree, IsAddressed}
use alpha_swarm.VirtGit.Tree.{
  TreeSnapshot, new_tree, hash, add_file, add_files, from_files, exists, read, read_string,
}
use alpha_swarm.VirtGit.Tree
use alpha_swarm.VirtGit.Tree.Reads.{
  IsWhole, IsStored, new_tree-IsWhole, remove_file-IsWhole, insert_file-IsWhole,
  insert_file-IsAddressed, insert_file-kept,
}
use alpha_swarm.VirtGit.Workspace.{
  VirtWorkspace, workspace_of, load_file, write_file, delete_file, commit,
}
use alpha_swarm.VirtGit.Workspace.Changes.{hash_entries}
use alpha_swarm.VirtGit.Workspace.Merge.{all_paths, merge, fork}
use alpha_swarm.VirtGit.Workspace.Merge.Conflicts.{sides_of}
use alpha_swarm.VirtGit.Workspace.Merge.Result.{merge-IsStored, merge_kept}

abbrev pub AllUtf8 : List (Text × Text) → Type 0
AllUtf8 [] = Unit
AllUtf8 ((path, content) ∷ files) = (is_utf8 content ≡ true) × AllUtf8 files

-- Both trees can be read from the store, and have each path once.
pub record IsSound (p : Primitives) (s : VirtWorkspace × MemoryBlobStore) : Type 0 where
  pub addressed : IsAddressed p s.1
  pub base_whole : IsWhole s.1 s.0.base.entries
  pub working_whole : IsWhole s.1 s.0.working.entries
  pub base_distinct : Distinct (keys s.0.base.entries)
  pub working_distinct : Distinct (keys s.0.working.entries)

module _ (p : Primitives) (distinct : CollisionFree p) where
  IsWhole-kept :
      (old new : MemoryBlobStore) (entries : Map Text)
      → ((h c : Text) → get_blob h old ≡ some c → get_blob h new ≡ some c)
      → IsWhole old entries
      → IsWhole new entries
  IsWhole-kept old new entries kept whole path h e =
      let (c, found) = whole path h e in (c, kept h c found)

  -- A tree that is stored, with each path once.
  record IsGood (t : TreeSnapshot × MemoryBlobStore) : Type 0 where
    addressed : IsAddressed p t.1
    whole : IsWhole t.1 t.0.entries
    once : Distinct (keys t.0.entries)

  insert_file-IsGood :
      (path content : Text) (t : TreeSnapshot × MemoryBlobStore)
      → is_utf8 content ≡ true
      → IsGood t
      → IsGood (Tree.insert_file p path content t)
  insert_file-IsGood path content t valid g = record {
    addressed = insert_file-IsAddressed p distinct path content t valid g.addressed;
    whole = insert_file-IsWhole p distinct path content t g.addressed g.whole;
    once = insert_file-Distinct p path content t g.once;
  }

  add_file-IsGood :
      (path content : Text) (t : TreeSnapshot × MemoryBlobStore)
      → is_utf8 content ≡ true
      → IsGood t
      → IsGood (add_file p path content t)
  unfolding Tree.insert_file
  add_file-IsGood path content t valid g =
      let h = insert_file-IsGood path content t valid g in
      record { addressed = h.addressed; whole = h.whole; once = h.once }

  add_files-IsGood :
      (files : List (Text × Text)) (t : TreeSnapshot × MemoryBlobStore)
      → AllUtf8 files
      → IsGood t
      → IsGood (add_files p files t)
  add_files-IsGood [] t valid g = g
  add_files-IsGood ((path, content) ∷ files) t valid g =
      add_files-IsGood files (add_file p path content t) valid.1
        (add_file-IsGood path content t valid.0 g)

  working-IsGood : (s : VirtWorkspace × MemoryBlobStore) → IsSound p s → IsGood (s.0.working, s.1)
  working-IsGood s ok = record {
    addressed = ok.addressed;
    whole = ok.working_whole;
    once = ok.working_distinct;
  }

  pub made-IsSound :
      (files : List (Text × Text)) (s : VirtWorkspace × MemoryBlobStore)
      → AllUtf8 files
      → IsSound p s
      → IsSound p (workspace_of p files s.1)
  unfolding workspace_of from_files
  made-IsSound files s valid ok =
      let g =
        add_files-IsGood files (new_tree, s.1) valid
          (record { addressed = ok.addressed; whole = new_tree-IsWhole s.1; once = tt }) in
      record {
        addressed = g.addressed;
        base_whole = g.whole;
        working_whole = g.whole;
        base_distinct = g.once;
        working_distinct = g.once;
      }

  pub wrote-IsSound :
      (path content : Text) (s : VirtWorkspace × MemoryBlobStore)
      → is_utf8 content ≡ true
      → IsSound p s
      → IsSound p (write_file p path content s)
  unfolding write_file
  wrote-IsSound path content s valid ok =
      let g = insert_file-IsGood path content (s.0.working, s.1) valid (working-IsGood s ok) in
      record {
        addressed = g.addressed;
        base_whole =
            IsWhole-kept s.1 _ s.0.base.entries
              (λ h c. insert_file-kept p distinct path content h c (s.0.working, s.1) ok.addressed)
              ok.base_whole;
        working_whole = g.whole;
        base_distinct = ok.base_distinct;
        working_distinct = g.once;
      }

  pub loaded-IsSound :
      (path content : Text) (s : VirtWorkspace × MemoryBlobStore)
      → is_utf8 content ≡ true
      → IsSound p s
      → IsSound p (load_file p path content s)
  unfolding load_file
  loaded-IsSound path content s valid ok =
      let t : TreeSnapshot × MemoryBlobStore = Tree.insert_file p path content (s.0.base, s.1) in
      let g : IsGood t =
        insert_file-IsGood path content (s.0.base, s.1) valid
          (record { addressed = ok.addressed; whole = ok.base_whole; once = ok.base_distinct }) in
      let later : IsGood (Tree.insert_file p path content (s.0.working, t.1)) =
        insert_file-IsGood path content (s.0.working, t.1) valid
          (record {
            addressed = g.addressed;
            whole =
                IsWhole-kept s.1 t.1 s.0.working.entries
                  (λ h c. insert_file-kept p distinct path content h c (s.0.base, s.1) ok.addressed)
                  ok.working_whole;
            once = ok.working_distinct;
          }) in
      record {
        addressed = later.addressed;
        base_whole =
            IsWhole-kept t.1 _ t.0.entries
              (λ h c. insert_file-kept p distinct path content h c (s.0.working, t.1) g.addressed)
              g.whole;
        working_whole = later.whole;
        base_distinct = g.once;
        working_distinct = later.once;
      }

  pub deleted-IsSound :
      (path : Text) (s : VirtWorkspace × MemoryBlobStore)
      → IsSound p s
      → IsSound p (delete_file path s.0, s.1)
  unfolding delete_file
  deleted-IsSound path s ok = record {
    addressed = ok.addressed;
    base_whole = ok.base_whole;
    working_whole = remove_file-IsWhole path s.1 s.0.working ok.working_whole;
    base_distinct = ok.base_distinct;
    working_distinct = remove_file-Distinct path s.0.working ok.working_distinct;
  }

  pub committed-IsSound :
      (now : ℕ) (message : Text) (s : VirtWorkspace × MemoryBlobStore)
      → IsSound p s
      → IsSound p ((commit p now message s.0).1, s.1)
  unfolding commit
  committed-IsSound now message s ok =
      let same = hash_entries p s.0 in
      record {
        addressed = ok.addressed;
        base_whole = rw same ok.working_whole;
        working_whole = rw same ok.working_whole;
        base_distinct = rw same ok.working_distinct;
        working_distinct = rw same ok.working_distinct;
      }

  pub forked-IsSound :
      (s : VirtWorkspace × MemoryBlobStore) → IsSound p s → IsSound p (fork s.0 s.1)
  unfolding fork
  forked-IsSound s ok = record {
    addressed = ok.addressed;
    base_whole = ok.working_whole;
    working_whole = ok.working_whole;
    base_distinct = ok.working_distinct;
    working_distinct = ok.working_distinct;
  }

  working-IsStored :
      (s : VirtWorkspace × MemoryBlobStore) → IsSound p s → IsStored p (s.0.working, s.1)
  working-IsStored s ok = record { addressed = ok.addressed; whole = ok.working_whole }

  pub merged-IsSound :
      (s t : VirtWorkspace × MemoryBlobStore)
      → IsSound p s
      → IsSound p t
      → IsSound p ((merge p s t).workspace, (merge p s t).store)
  unfolding merge
  merged-IsSound s t ok ok' =
      let mine = working-IsStored s ok in
      let theirs = working-IsStored t ok' in
      let done = merge-IsStored p s t distinct mine theirs in
      let sides = sides_of s.0 t.0 in
      record {
        addressed = done.addressed;
        base_whole =
            IsWhole-kept s.1 (merge p s t).store s.0.base.entries
              (λ h c. merge_kept p s t h c distinct mine theirs) ok.base_whole;
        working_whole = done.whole;
        base_distinct = ok.base_distinct;
        working_distinct =
            merge_paths-Distinct p t.1 sides (all_paths sides)
              (record { working = s.0.working; store = s.1; conflicts = [] }) ok.working_distinct;
      }
