-- ===== src/VirtGit/Workspace/Merge/Result.antt =====
-- What a merge leaves in each file and which paths it reports.
use alpha_swarm.Prelude.{
  Text, text_eq, text_eq_iff, text_eq_refl, Bool, is_utf8, List, [], ◌∷◌, Option, none, some, true,
  false, ◌&&◌, ◌≡◌, refl, ◌∙◌, subst, arith, Bool-cases, Option-cases, inl, inr, if◌then◌else◌,
  contains,
}
use alpha_swarm.Prelude.Maps.{Map, get}
use alpha_swarm.VirtGit.Store.{Primitives, MemoryBlobStore, get_blob}
use alpha_swarm.VirtGit.Store.Addressing.{CollisionFree, IsAddressed}
use alpha_swarm.VirtGit.Tree.{TreeSnapshot, read, stored_at}
use alpha_swarm.VirtGit.Tree
use alpha_swarm.VirtGit.Tree.Reads.{
  IsStored, read_at, read-remove_file, read-insert_file, remove_file-IsWhole, insert_file-IsWhole,
  insert_file-IsAddressed, insert_file-kept,
}
use alpha_swarm.VirtGit.Workspace.{VirtWorkspace}
use alpha_swarm.VirtGit.Workspace.Merge.{
  Merging, Sides, take_theirs, merge_path, merge_paths, all_paths, merge,
}
use alpha_swarm.VirtGit.Workspace.Merge.Conflicts.{
  they_changed, sides_of, merge_path_eq, they_changed-all_paths,
}

-- Whether there is content to take for their entry at a path: the entry is gone, or their store has
-- its blob.
abbrev pub can_take : MemoryBlobStore → Option Text → Bool
can_take store none = true
can_take store (some hash) = elim (get_blob hash store) [ none ↦ false | some content ↦ true ]

module _ (p : Primitives) (distinct : CollisionFree p) (theirs : TreeSnapshot)
    (their_store : MemoryBlobStore) (theirs_addressed : IsAddressed p their_store) where
  abbrev Reads : Merging → Text → Option Text → Type 0
  Reads m q o = read m.store q m.working ≡ o

  -- The merge so far can be read, its paths read as `expected` says, and it kept every blob.
  record Merges (from : MemoryBlobStore) (m : Merging) (expected : Text → Option Text)
      : Type 0 where
    stored : IsStored p (m.working, m.store)
    reads : (q : Text) → Reads m q (expected q)
    kept : (h c : Text) → get_blob h from ≡ some c → get_blob h m.store ≡ some c

  -- The merge so far with content at a path.
  abbrev with_content : Text → Text → Merging → Merging
  with_content path content m = record m {
    working = (Tree.insert_file p path content (m.working, m.store)).0;
    store = (Tree.insert_file p path content (m.working, m.store)).1;
  }

  take_lacking :
      (path h : Text) (m : Merging)
      → get_blob h their_store ≡ none
      → take_theirs p their_store path (some h) m ≡ m
  unfolding take_theirs
  take_lacking path h m lacking = rw (lacking, take_theirs) refl

  take_some :
      (path h content : Text) (m : Merging)
      → get_blob h their_store ≡ some content
      → take_theirs p their_store path (some h) m ≡ with_content path content m
  unfolding take_theirs
  take_some path h content m found = rw (found, take_theirs) refl

  abbrev taken : Text → Merging → Text → Option Text
  taken path m q = if text_eq path q then read their_store path theirs else read m.store q m.working

  abbrev takes : Text → Bool
  takes path = can_take their_store (get path theirs.entries)

  abbrev after_take : Text → Merging → Text → Option Text
  after_take path m q =
      if text_eq path q && takes path
      then read their_store path theirs
      else read m.store q m.working

  Merges-cong :
      (from : MemoryBlobStore) (m : Merging) (f g : Text → Option Text)
      → ((q : Text) → f q ≡ g q)
      → Merges from m f
      → Merges from m g
  Merges-cong from m f g same h = record {
    stored = h.stored;
    reads = λ q. h.reads q ∙ same q;
    kept = h.kept;
  }

  after_take-taken :
      (path : Text) (m : Merging) (q : Text)
      → takes path ≡ true
      → taken path m q ≡ after_take path m q
  after_take-taken path m q h =
      rw h (elim (Bool-cases (text_eq path q)) [ inl e ↦ rw e refl | inr e ↦ rw e refl ])

  after_take-lacking :
      (path : Text) (m : Merging) (q : Text)
      → takes path ≡ false
      → read m.store q m.working ≡ after_take path m q
  after_take-lacking path m q h =
      rw h (elim (Bool-cases (text_eq path q)) [ inl e ↦ rw e refl | inr e ↦ rw e refl ])

  with_content-Merges :
      (path content : Text) (m : Merging)
      → IsStored p (m.working, m.store)
      → is_utf8 content ≡ true
      → read their_store path theirs ≡ some content
      → Merges m.store (with_content path content m) (taken path m)
  with_content-Merges path content m ok valid e = record {
    stored = record {
      addressed =
          insert_file-IsAddressed p distinct path content (m.working, m.store) valid ok.addressed;
      whole =
          insert_file-IsWhole p distinct path content (m.working, m.store) ok.addressed ok.whole;
    };
    reads = λ q.
        rw e
          (read-insert_file p distinct path content q (m.working, m.store) ok.addressed ok.whole);
    kept = λ h c. insert_file-kept p distinct path content h c (m.working, m.store) ok.addressed;
  }

  removed-Merges :
      (path : Text) (m : Merging)
      → IsStored p (m.working, m.store)
      → read their_store path theirs ≡ none
      → Merges m.store (take_theirs p their_store path none m) (taken path m)
  unfolding take_theirs
  removed-Merges path m ok e = record {
    stored = record {
      addressed = ok.addressed;
      whole = remove_file-IsWhole path m.store m.working ok.whole;
    };
    reads = λ q. rw e (read-remove_file path q m.store m.working);
    kept = λ h c e'. e';
  }

  take_theirs-Merges :
      (path : Text) (m : Merging)
      → IsStored p (m.working, m.store)
      → Merges m.store
          (take_theirs p their_store path (get path theirs.entries) m)
          (after_take path m)
  take_theirs-Merges path m ok = elim (Option-cases (get path theirs.entries)) [
    | inl absent ↦ rw absent (
        Merges-cong m.store (take_theirs p their_store path none m) (taken path m)
          (after_take path m) (λ q. after_take-taken path m q (rw absent refl))
          (removed-Merges path m ok (read_at their_store path theirs none absent)))
    | inr (h, named) ↦ elim (Option-cases (get_blob h their_store)) [
      | inl lacking ↦
          rw (named, take_lacking path h m lacking)
            (Merges-cong m.store m (λ q. read m.store q m.working) (after_take path m)
              (λ q. after_take-lacking path m q (rw (named, lacking, can_take) refl))
              (record { stored = ok; reads = λ q. refl; kept = λ h c e. e }))
      | inr (c, found) ↦
          rw (named, take_some path h c m found)
            (Merges-cong m.store (with_content path c m) (taken path m) (after_take path m)
              (λ q. after_take-taken path m q (rw (named, found, can_take) refl))
              (with_content-Merges path c m ok (theirs_addressed h c found).1
                (read_at their_store path theirs (some h) named ∙ found)))
    ]
  ]

  module _ (base ours : Map Text) where
    abbrev sides : Sides
    sides = record { base = base; ours = ours; theirs = theirs.entries }

    -- A path that they changed reads as theirs, if it is among the paths and there is content.
    abbrev expected : List Text → Merging → Text → Option Text
    expected paths m q =
        if contains paths q && (they_changed sides q && takes q)
        then read their_store q theirs
        else read m.store q m.working

    expected_same :
        (path : Text) (m : Merging) (q : Text)
        → they_changed sides path ≡ false
        → read m.store q m.working ≡ expected (path ∷ []) m q
    expected_same path m q h = elim (Bool-cases (text_eq path q)) [
      | inl e ↦ rw (e, subst (λ k. they_changed sides k ≡ false) ((text_eq_iff path q).0 e) h) refl
      | inr e ↦ rw e refl
    ]

    expected_changed :
        (path : Text) (m : Merging) (q : Text)
        → they_changed sides path ≡ true
        → after_take path m q ≡ expected (path ∷ []) m q
    expected_changed path m q h = elim (Bool-cases (text_eq path q)) [
      | inl e ↦
          subst (λ k. after_take path m k ≡ expected (path ∷ []) m k) ((text_eq_iff path q).0 e)
            (rw (text_eq_refl path, h) refl)
      | inr e ↦ rw e refl
    ]

    merge_path-Merges :
        (path : Text) (m : Merging)
        → IsStored p (m.working, m.store)
        → Merges m.store (merge_path p their_store sides path m) (expected (path ∷ []) m)
    merge_path-Merges path m ok = elim (Bool-cases (they_changed sides path)) [
      | inl changed ↦
          rw (merge_path_eq p their_store sides path m, changed)
            (Merges-cong m.store _ (after_take path m) (expected (path ∷ []) m)
              (λ q. expected_changed path m q changed)
              (take_theirs-Merges path (record m { conflicts = _ }) ok))
      | inr same ↦
          rw (merge_path_eq p their_store sides path m, same)
            (Merges-cong m.store m (λ q. read m.store q m.working) (expected (path ∷ []) m)
              (λ q. expected_same path m q same)
              (record { stored = ok; reads = λ q. refl; kept = λ h c e. e }))
    ]

    merge_paths-Merges :
        (paths : List Text) (m : Merging)
        → IsStored p (m.working, m.store)
        → Merges m.store (merge_paths p their_store sides paths m) (expected paths m)
    unfolding merge_paths
    merge_paths-Merges [] m ok = record { stored = ok; reads = λ q. refl; kept = λ h c e. e }
    merge_paths-Merges (path ∷ paths) m ok =
        let now = merge_path-Merges path m ok in
        let later = merge_paths-Merges paths (merge_path p their_store sides path m) now.stored in
        record {
          stored = later.stored;
          reads = λ q. later.reads q ∙ (ground (arith, now.reads q));
          kept = λ h c e. later.kept h c (now.kept h c e);
        }

-- After a merge a path reads as theirs if they changed it since our base and there is content to
-- take, that is, it is gone from their tree or their store has its blob; otherwise it reads as
-- ours. No two contents may have one hash, every blob of both stores is kept under its own hash
-- and is UTF-8, and every entry of our tree has its blob in our store.
pub merge_reads :
    (p : Primitives) (ours theirs : VirtWorkspace × MemoryBlobStore) (q : Text)
    → CollisionFree p
    → IsStored p (ours.0.working, ours.1)
    → IsAddressed p theirs.1
    → read (merge p ours theirs).store q (merge p ours theirs).workspace.working ≡ (
        if they_changed (sides_of ours.0 theirs.0) q
          && can_take theirs.1 (get q theirs.0.working.entries)
        then read theirs.1 q theirs.0.working
        else read ours.1 q ours.0.working)
unfolding merge
merge_reads p ours theirs q distinct ok theirs_ok =
    let sides = sides_of ours.0 theirs.0 in
    let done =
      merge_paths-Merges p distinct theirs.0.working theirs.1 theirs_ok sides.base sides.ours
        (all_paths sides) (record { working = ours.0.working; store = ours.1; conflicts = [] })
        ok in
    done.reads q ∙ (ground (arith, they_changed-all_paths sides q))

-- What a merge leaves can be read.
pub merge-IsStored :
    (p : Primitives) (ours theirs : VirtWorkspace × MemoryBlobStore)
    → CollisionFree p
    → IsStored p (ours.0.working, ours.1)
    → IsStored p (theirs.0.working, theirs.1)
    → IsStored p ((merge p ours theirs).workspace.working, (merge p ours theirs).store)
unfolding merge
merge-IsStored p ours theirs distinct ok theirs_ok =
    let sides = sides_of ours.0 theirs.0 in
    let done =
      merge_paths-Merges p distinct theirs.0.working theirs.1 theirs_ok.addressed sides.base
        sides.ours (all_paths sides)
        (record { working = ours.0.working; store = ours.1; conflicts = [] }) ok in
    done.stored

-- A merge keeps every blob of our store.
pub merge_kept :
    (p : Primitives) (ours theirs : VirtWorkspace × MemoryBlobStore) (h c : Text)
    → CollisionFree p
    → IsStored p (ours.0.working, ours.1)
    → IsStored p (theirs.0.working, theirs.1)
    → get_blob h ours.1 ≡ some c
    → get_blob h (merge p ours theirs).store ≡ some c
unfolding merge
merge_kept p ours theirs h c distinct ok theirs_ok e =
    let sides = sides_of ours.0 theirs.0 in
    let done =
      merge_paths-Merges p distinct theirs.0.working theirs.1 theirs_ok.addressed sides.base
        sides.ours (all_paths sides)
        (record { working = ours.0.working; store = ours.1; conflicts = [] }) ok in
    done.kept h c e
