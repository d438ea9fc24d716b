-- ===== src/VirtGit/Store/Remote.antt =====
-- crates/virt-git/src/store.rs, `NatsBlobStore`, and wasi_store.rs, `WasiBlobStoreAdapter`: blob
-- stores with a local cache in front of a remote store.
pub mod Calls
use alpha_swarm.Prelude.{
  Text, text, text_eq_refl, List, [], ◌∷◌, ◌++◌, Option, none, some, Bool, true, false, ◌≡◌, refl,
  ◌∙◌, ap, arith, if◌then◌else◌, Bool-cases, Option-cases, inl, inr,
}
use alpha_swarm.Prelude.Maps.{Map, get, has_key, insert, remove, get-insert, has_key-get}
use alpha_swarm.VirtGit.Store.{Primitives, MemoryBlobStore, put, get_blob, blob_exists, delete}

-- The calls of a remote object store. A put or a delete may fail, which the source ignores.
pub record Remote : Type 1 where
  pub State : Type 0
  pub put_object : Text → Text → State → State
  pub get_object : Text → State → Option Text
  pub has_object : Text → State → Bool
  pub delete_object : Text → State → State

-- The objects are in the remote store, the cache here.
pub record CachedStore (r : Remote) : Type 0 where
  pub remote : r.State
  pub cache : Map Text

abbrev pub blob_key : Text → Text
blob_key hash = text "blob/" ++ hash

module _ (p : Primitives) (r : Remote) where
  unfoldable pub nats_put : Text → CachedStore r → Text × CachedStore r
  unfolding insert
  nats_put content s =
      let hash = p.content_hash content in
      if has_key hash s.cache then (hash, s) else (
        hash,
        record {
          remote = r.put_object (blob_key hash) content s.remote;
          cache = insert hash content s.cache;
        },
      )

  unfoldable pub nats_get : Text → CachedStore r → Option Text
  nats_get hash s = elim (get hash s.cache) [
    | some cached ↦ some cached
    | none ↦ r.get_object (blob_key hash) s.remote
  ]

  unfoldable pub nats_exists : Text → CachedStore r → Bool
  nats_exists hash s = if has_key hash s.cache then true else r.has_object (blob_key hash) s.remote

  unfoldable pub nats_delete : Text → CachedStore r → CachedStore r
  unfolding remove
  nats_delete hash s = record {
    remote = r.delete_object (blob_key hash) s.remote;
    cache = remove hash s.cache;
  }

  nats_get_cached :
      (hash c : Text) (s : CachedStore r) → get hash s.cache ≡ some c → nats_get hash s ≡ some c
  unfolding nats_get
  nats_get_cached hash c s e = rw (e, nats_get) refl

  put_new :
      (content : Text) (s : CachedStore r)
      → has_key (p.content_hash content) s.cache ≡ false
      → get (p.content_hash content) (nats_put content s).1.cache
        ≡ get (p.content_hash content) (insert (p.content_hash content) content s.cache)
  unfolding nats_put
  put_new content s lacks = rw lacks refl

  put_cached :
      (content : Text) (s : CachedStore r)
      → ((c : Text) → get (p.content_hash content) s.cache ≡ some c → c ≡ content)
      → get (p.content_hash content) (nats_put content s).1.cache ≡ some content
  unfolding nats_put
  put_cached content s same = elim (Option-cases (get (p.content_hash content) s.cache)) [
    | inl absent ↦
        put_new content s ((has_key-get (p.content_hash content) s.cache).1 absent)
        ∙ (get-insert (p.content_hash content) (p.content_hash content) content s.cache
            ∙ (rw (text_eq_refl (p.content_hash content)) refl))
    | inr (c, found) ↦ elim (Bool-cases (has_key (p.content_hash content) s.cache)) [
      | inl has ↦ rw has (found ∙ ap some (same c found))
      | inr lacks ↦ cc (found, (has_key-get (p.content_hash content) s.cache).0 lacks)
    ]
  ]

  -- Content that was put through a caching store is found again through it, whatever the remote
  -- store did, if the cache keeps contents under their own hashes and no two contents have one
  -- hash.
  pub nats_get-nats_put :
      (content : Text) (s : CachedStore r)
      → ((a b : Text) → p.content_hash a ≡ p.content_hash b → a ≡ b)
      → ((h c : Text) → get h s.cache ≡ some c → p.content_hash c ≡ h)
      → ((nats_put content s).0 ≡ p.content_hash content)
        × (nats_get (p.content_hash content) (nats_put content s).1 ≡ some content)
  unfolding nats_put
  nats_get-nats_put content s distinct addressed = (
    ground arith,
    nats_get_cached (p.content_hash content) content (nats_put content s).1 (
        put_cached content s
          λ c found. distinct c content (addressed (p.content_hash content) c found)),
  )

-- The callbacks of `WasiBlobStoreAdapter`: `new` sets none, and `with_callbacks` all four.
pub record WasiBlobStoreAdapter (r : Remote) : Type 0 where
  pub container : Text
  pub connected : Bool
  pub remote : r.State
  pub cache : Map Text

module _ (p : Primitives) (r : Remote) where
  unfoldable pub wasi_put : Text → WasiBlobStoreAdapter r → Text × WasiBlobStoreAdapter r
  unfolding insert
  wasi_put content s =
      let hash = p.content_hash content in
      if has_key hash s.cache then (hash, s) else (
        hash,
        record s {
          remote = if s.connected then r.put_object (blob_key hash) content s.remote else s.remote;
          cache = insert hash content s.cache;
        },
      )

  unfoldable pub wasi_get : Text → WasiBlobStoreAdapter r → Option Text
  wasi_get hash s = elim (get hash s.cache) [
    | some cached ↦ some cached
    | none ↦ if s.connected then r.get_object (blob_key hash) s.remote else none
  ]

  unfoldable pub wasi_exists : Text → WasiBlobStoreAdapter r → Bool
  wasi_exists hash s =
      if has_key hash s.cache
      then true
      else if s.connected
      then r.has_object (blob_key hash) s.remote
      else false

  unfoldable pub wasi_delete : Text → WasiBlobStoreAdapter r → WasiBlobStoreAdapter r
  unfolding remove
  wasi_delete hash s = record s {
    remote = if s.connected then r.delete_object (blob_key hash) s.remote else s.remote;
    cache = remove hash s.cache;
  }
