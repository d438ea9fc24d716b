-- ===== src/VirtGit/Diff/Paths.antt =====
-- Which paths a diff of two trees names.
use alpha_swarm.Prelude.{
  Text, text_eq, text_eq_iff, List, [], ◌∷◌, ◌++◌, map, Option, none, some, Bool, true, false, not,
  ◌&&◌, ◌||◌, ◌≡◌, refl, sym, ◌∙◌, ap, arith, Bool-cases, inl, inr, contains, Distinct,
}
use alpha_swarm.Prelude.Maps.{Map, get, keys, has_key}
use alpha_swarm.VirtGit.Store.{Primitives, MemoryBlobStore}
use alpha_swarm.VirtGit.Tree.{TreeSnapshot, is_some}
use alpha_swarm.VirtGit.Diff.{
  FileDiff, diff_old, diff_olds, diff_news, insert_by_path, sort_by_path, diff_trees,
}

abbrev pub paths_of : List FileDiff → List Text
paths_of diffs = map (λ d. d.path) diffs

-- The entries of a path in two trees differ, or only one has one.
abbrev pub differ : Option Text → Option Text → Bool
differ none none = false
differ none (some b) = true
differ (some a) none = true
differ (some a) (some b) = not (text_eq b a)

paths_of-append :
    (xs ys : List FileDiff) (q : Text)
    → contains (paths_of (xs ++ ys)) q ≡ (contains (paths_of xs) q || contains (paths_of ys) q)
paths_of-append [] ys q = refl
paths_of-append (x ∷ xs) ys q = ground (arith, paths_of-append xs ys q)

paths_of-insert_by_path :
    (d : FileDiff) (es : List FileDiff) (q : Text)
    → contains (paths_of (insert_by_path d es)) q ≡ (text_eq d.path q || contains (paths_of es) q)
paths_of-insert_by_path d [] q = refl
paths_of-insert_by_path d (e ∷ es) q = ground (arith, paths_of-insert_by_path d es q)

paths_of-sort_by_path :
    (ds : List FileDiff) (q : Text)
    → contains (paths_of (sort_by_path ds)) q ≡ contains (paths_of ds) q
paths_of-sort_by_path [] q = refl
paths_of-sort_by_path (d ∷ ds) q =
    ground (arith, paths_of-insert_by_path d (sort_by_path ds) q, paths_of-sort_by_path ds q)

module _ (p : Primitives) (store : MemoryBlobStore) where
  paths_of-diff_old :
      (path hash : Text) (o : Option Text) (q : Text)
      → contains (paths_of (diff_old p store path hash o)) q
        ≡ (text_eq path q && differ (some hash) o)
  unfolding diff_old
  paths_of-diff_old path hash none q = ground arith
  paths_of-diff_old path hash (some h) q = ground arith

  paths_of-diff_olds :
      (old new : Map Text) (q : Text)
      → Distinct (keys old)
      → contains (paths_of (diff_olds p store old new)) q
        ≡ (has_key q old && differ (get q old) (get q new))
  paths_of-diff_olds [] new q d = refl
  paths_of-diff_olds ((path, hash) ∷ old) new q d =
      rw
        (
          paths_of-append (diff_old p store path hash (get path new)) (diff_olds p store old new) q,
          paths_of-diff_old path hash (get path new) q,
          paths_of-diff_olds old new q d.1,
        )
        (elim (Bool-cases (text_eq path q)) [
          | inl same ↦
              rw
                (
                  ap (λ k. get k new) ((text_eq_iff path q).0 same),
                  sym (ap (λ k. has_key k old) ((text_eq_iff path q).0 same)) ∙ d.0,
                )
                (ground (arith, same))
          | inr other ↦ ground (arith, other)
        ])

  paths_of-diff_news :
      (old rest : Map Text) (new : TreeSnapshot) (q : Text)
      → contains (paths_of (diff_news store old rest new)) q
        ≡ (has_key q rest && not (has_key q old))
  paths_of-diff_news old [] new q = refl
  paths_of-diff_news old ((path, hash) ∷ rest) new q =
      ground (arith, paths_of-diff_news old rest new q, text_eq_iff path q)

has_key-is_some : (k : Text) (m : Map Text) → has_key k m ≡ is_some (get k m)
has_key-is_some k [] = refl
has_key-is_some k ((j, v) ∷ m) = ground (arith, has_key-is_some k m)

differ_lem :
    (a b : Option Text) → ((is_some a && differ a b) || (is_some b && not (is_some a))) ≡ differ a b
differ_lem none none = refl
differ_lem none (some b) = refl
differ_lem (some a) none = refl
differ_lem (some a) (some b) = ground arith

-- A diff names just the paths whose entries differ in the two trees, if the old tree has each path
-- once.
pub diff_trees_paths :
    (p : Primitives) (store : MemoryBlobStore) (old new : TreeSnapshot) (q : Text)
    → Distinct (keys old.entries)
    → contains (paths_of (diff_trees p store old new)) q
      ≡ differ (get q old.entries) (get q new.entries)
unfolding diff_trees
diff_trees_paths p store old new q d =
    let olds = diff_olds p store old.entries new.entries in
    let news = diff_news store old.entries new.entries new in
    rw
      (
        paths_of-sort_by_path (olds ++ news) q,
        paths_of-append olds news q,
        paths_of-diff_olds p store old.entries new.entries q d,
        paths_of-diff_news p store old.entries new.entries new q,
      )
      (rw (has_key-is_some q old.entries, has_key-is_some q new.entries)
        (differ_lem (get q old.entries) (get q new.entries)))
