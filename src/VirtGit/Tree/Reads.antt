-- ===== src/VirtGit/Tree/Reads.antt =====
-- What can be read from a tree after an operation on it or on its store.
use alpha_swarm.Prelude.{
  Text, text_eq, is_utf8, Option, none, some, true, ◌≡◌, refl, sym, ◌∙◌, ap, subst, Bool-cases,
  Option-cases, inl, inr, if_some-cases, if◌then◌else◌,
}
use alpha_swarm.Prelude.Maps.{Map, get, get-insert, get-remove}
use alpha_swarm.Prelude.Maps
use alpha_swarm.VirtGit.Store.{Primitives, MemoryBlobStore, put, get_blob}
use alpha_swarm.VirtGit.Store.Addressing.{
  CollisionFree, IsAddressed, get_blob-put_own, put-IsAddressed, get_blob-kept,
}
use alpha_swarm.VirtGit.Tree.{TreeSnapshot, new_tree, insert_file, remove_file, read, stored_at}

-- The store has every blob that the entries name.
abbrev pub IsWhole : MemoryBlobStore → Map Text → Type 0
IsWhole store entries =
    (path h : Text) → get path entries ≡ some h → (c : Text) × (get_blob h store ≡ some c)

pub new_tree-IsWhole : (store : MemoryBlobStore) → IsWhole store new_tree.entries
new_tree-IsWhole store path h e = cc

pub remove_file-IsWhole :
    (path : Text) (store : MemoryBlobStore) (tree : TreeSnapshot)
    → IsWhole store tree.entries
    → IsWhole store (remove_file path tree).1.entries
unfolding remove_file
remove_file-IsWhole path store tree whole q h e = elim (Bool-cases (text_eq path q)) [
  | inl gone ↦ elim (absent gone) [ ]
  | inr kept ↦ whole q h (
      subst (λ b. (if b then none else get q tree.entries) ≡ some h) kept
        (sym (get-remove path q tree.entries) ∙ e))
]
  where
    absent : text_eq path q ≡ true → ⊥
    absent gone =
        let nothing : get q (Maps.remove path tree.entries) ≡ none =
          get-remove path q tree.entries ∙ (rw gone refl) in
        cc

pub read_at :
    (store : MemoryBlobStore) (q : Text) (tree : TreeSnapshot) (o : Option Text)
    → get q tree.entries ≡ o
    → read store q tree ≡ stored_at store o
unfolding read
read_at store q tree o e = ap (stored_at store) e

-- A removed path reads as nothing, and the others as before.
pub read-remove_file :
    (path q : Text) (store : MemoryBlobStore) (tree : TreeSnapshot)
    → read store q (remove_file path tree).1 ≡ (if text_eq path q then none else read store q tree)
unfolding read remove_file
read-remove_file path q store tree = elim (Bool-cases (text_eq path q)) [
  | inl gone ↦ rw gone (
      read_at store q (remove_file path tree).1 none
        (get-remove path q tree.entries ∙ (rw gone refl)))
  | inr kept ↦ rw kept (
      read_at store q (remove_file path tree).1 (get q tree.entries)
        (get-remove path q tree.entries ∙ (rw kept refl)))
]

module _ (p : Primitives) (distinct : CollisionFree p) where
  get-insert_file_entries :
      (path content q : Text) (t : TreeSnapshot × MemoryBlobStore)
      → get q (insert_file p path content t).0.entries
        ≡ (if text_eq path q then some (p.content_hash content) else get q t.0.entries)
  unfolding insert_file
  get-insert_file_entries path content q t = get-insert path q (p.content_hash content) t.0.entries

  insert_file_store :
      (path content : Text) (t : TreeSnapshot × MemoryBlobStore)
      → (insert_file p path content t).1 ≡ (put p content t.1).1
  unfolding insert_file
  insert_file_store path content t = refl

  pub put-IsWhole :
      (content : Text) (store : MemoryBlobStore) (entries : Map Text)
      → IsAddressed p store
      → IsWhole store entries
      → IsWhole (put p content store).1 entries
  put-IsWhole content store entries addressed whole path h e =
      let (c, found) = whole path h e in
      (c, get_blob-kept p distinct content h c store addressed found)

  pub insert_file-IsWhole :
      (path content : Text) (t : TreeSnapshot × MemoryBlobStore)
      → IsAddressed p t.1
      → IsWhole t.1 t.0.entries
      → IsWhole (insert_file p path content t).1 (insert_file p path content t).0.entries
  insert_file-IsWhole path content t addressed whole q h e =
      rw (insert_file_store path content t)
        (elim (if_some-cases (text_eq path q) (p.content_hash content) h (get q t.0.entries)
          (sym (get-insert_file_entries path content q t) ∙ e)) [
            | inl (same, is_h) ↦ (
              content,
              subst (λ k. get_blob k (put p content t.1).1 ≡ some content) is_h
                  (get_blob-put_own p distinct content t.1 addressed),
            )
            | inr (other, old) ↦ put-IsWhole content t.1 t.0.entries addressed whole q h old
          ])

  pub insert_file-IsAddressed :
      (path content : Text) (t : TreeSnapshot × MemoryBlobStore)
      → is_utf8 content ≡ true
      → IsAddressed p t.1
      → IsAddressed p (insert_file p path content t).1
  insert_file-IsAddressed path content t valid addressed =
      rw (insert_file_store path content t) (put-IsAddressed p distinct content t.1 valid addressed)

  pub insert_file-kept :
      (path content h c : Text) (t : TreeSnapshot × MemoryBlobStore)
      → IsAddressed p t.1
      → get_blob h t.1 ≡ some c
      → get_blob h (insert_file p path content t).1 ≡ some c
  insert_file-kept path content h c t addressed e =
      rw (insert_file_store path content t) (get_blob-kept p distinct content h c t.1 addressed e)

  -- A put leaves what a whole tree reads.
  pub read-put :
      (content q : Text) (store : MemoryBlobStore) (tree : TreeSnapshot)
      → IsAddressed p store
      → IsWhole store tree.entries
      → read (put p content store).1 q tree ≡ read store q tree
  read-put content q store tree addressed whole = elim (Option-cases (get q tree.entries)) [
    | inl absent ↦
        read_at (put p content store).1 q tree none absent ∙ sym (read_at store q tree none absent)
    | inr (h, named) ↦
        let (c, found) = whole q h named in
        read_at (put p content store).1 q tree (some h) named
        ∙ (get_blob-kept p distinct content h c store addressed found
            ∙ (sym found ∙ sym (read_at store q tree (some h) named)))
  ]

  -- An inserted path reads as its content, and the others as before.
  pub read-insert_file :
      (path content q : Text) (t : TreeSnapshot × MemoryBlobStore)
      → IsAddressed p t.1
      → IsWhole t.1 t.0.entries
      → read (insert_file p path content t).1 q (insert_file p path content t).0
        ≡ (if text_eq path q then some content else read t.1 q t.0)
  read-insert_file path content q t addressed whole =
      rw (insert_file_store path content t) (elim (Bool-cases (text_eq path q)) [
        | inl same ↦ rw same (
            read_at (put p content t.1).1 q (insert_file p path content t).0
              (some (p.content_hash content))
              (get-insert_file_entries path content q t ∙ (rw same refl))
            ∙ get_blob-put_own p distinct content t.1 addressed)
        | inr other ↦ rw other (
            read_at (put p content t.1).1 q (insert_file p path content t).0 (get q t.0.entries)
              (get-insert_file_entries path content q t ∙ (rw other refl))
            ∙ (sym (read_at (put p content t.1).1 q t.0 (get q t.0.entries) refl)
                ∙ read-put content q t.1 t.0 addressed whole))
      ])

-- The tree can be read from the store.
pub record IsStored (p : Primitives) (t : TreeSnapshot × MemoryBlobStore) : Type 0 where
  pub addressed : IsAddressed p t.1
  pub whole : IsWhole t.1 t.0.entries
