-- ===== src/VirtGit/Store/Remote/Calls.antt =====
-- crates/virt-git/src/wasi_store.rs and store.rs: sequences of calls of a blob store, with their
-- answers, by the adapter, the NATS store and the in-memory store.
use alpha_swarm.Prelude.{Text, List, [], ◌∷◌, Option, Bool, true, false, ◌≡◌, refl, ◌∙◌, ap, arith}
use alpha_swarm.VirtGit.Store.{Primitives, MemoryBlobStore, put, get_blob, blob_exists, delete}
use alpha_swarm.VirtGit.Store.Remote.{
  Remote, CachedStore, nats_put, nats_get, nats_exists, nats_delete, WasiBlobStoreAdapter, wasi_put,
  wasi_get, wasi_exists, wasi_delete,
}

-- A call of the trait `BlobStore`, and what it gives.
pub data Call : Type 0 where
  putting : (content : Text) → Call
  getting : (hash : Text) → Call
  asking : (hash : Text) → Call
  deleting : (hash : Text) → Call

pub data Answer : Type 0 where
  hashed : (hash : Text) → Answer
  found : (content : Option Text) → Answer
  present : (there : Bool) → Answer
  deleted : Answer

-- The answers to a sequence of calls, and the state after it.
abbrev pub answers : {S : Type 0} → (Call → S → Answer × S) → List Call → S → List Answer × S
answers step [] s = ([], s)
answers step (c ∷ calls) s =
    let (a, s') = step c s in let (as', s'') = answers step calls s' in (a ∷ as', s'')

module _ (p : Primitives) (r : Remote) where
  unfoldable pub wasi_step : Call → WasiBlobStoreAdapter r → Answer × WasiBlobStoreAdapter r
  unfolding wasi_put wasi_get wasi_exists wasi_delete
  wasi_step (putting content) s = let (hash, s') = wasi_put p r content s in (hashed hash, s')
  wasi_step (getting hash) s = (found (wasi_get p r hash s), s)
  wasi_step (asking hash) s = (present (wasi_exists p r hash s), s)
  wasi_step (deleting hash) s = (deleted, wasi_delete p r hash s)

  unfoldable pub nats_step : Call → CachedStore r → Answer × CachedStore r
  unfolding nats_put nats_get nats_exists nats_delete
  nats_step (putting content) s = let (hash, s') = nats_put p r content s in (hashed hash, s')
  nats_step (getting hash) s = (found (nats_get p r hash s), s)
  nats_step (asking hash) s = (present (nats_exists p r hash s), s)
  nats_step (deleting hash) s = (deleted, nats_delete p r hash s)

  unfoldable pub memory_step : Call → MemoryBlobStore → Answer × MemoryBlobStore
  unfolding put delete
  memory_step (putting content) s = let (hash, s') = put p content s in (hashed hash, s')
  memory_step (getting hash) s = (found (get_blob hash s), s)
  memory_step (asking hash) s = (present (blob_exists hash s), s)
  memory_step (deleting hash) s = (deleted, delete hash s)

  -- The adapter's cache and remote store, and its cache alone.
  abbrev pub cached_of : WasiBlobStoreAdapter r → CachedStore r
  cached_of s = record { remote = s.remote; cache = s.cache }

  abbrev pub memory_of : WasiBlobStoreAdapter r → MemoryBlobStore
  memory_of s = record { blobs = s.cache }

  wasi_step-nats :
      (c : Call) (s : WasiBlobStoreAdapter r)
      → s.connected ≡ true
      → ((wasi_step c s).1.connected ≡ true)
        × ((wasi_step c s).0 ≡ (nats_step c (cached_of s)).0)
        × (cached_of (wasi_step c s).1 ≡ (nats_step c (cached_of s)).1)
  unfolding wasi_step nats_step wasi_put wasi_get wasi_exists wasi_delete nats_put nats_get
      nats_exists nats_delete
  wasi_step-nats (putting content) s h = ground (arith, h)
  wasi_step-nats (getting hash) s h = ground (arith, h)
  wasi_step-nats (asking hash) s h = ground (arith, h)
  wasi_step-nats (deleting hash) s h = (h, refl, rw h refl)

  wasi_step-memory :
      (c : Call) (s : WasiBlobStoreAdapter r)
      → s.connected ≡ false
      → ((wasi_step c s).1.connected ≡ false)
        × ((wasi_step c s).0 ≡ (memory_step c (memory_of s)).0)
        × (memory_of (wasi_step c s).1 ≡ (memory_step c (memory_of s)).1)
        × ((wasi_step c s).1.remote ≡ s.remote)
  unfolding wasi_step memory_step wasi_put wasi_get wasi_exists wasi_delete put delete
  wasi_step-memory (putting content) s h = ground (arith, h)
  wasi_step-memory (getting hash) s h = ground (arith, h)
  wasi_step-memory (asking hash) s h = ground (arith, h)
  wasi_step-memory (deleting hash) s h = (h, refl, refl, rw h refl)

  both : {a b : Answer} {as' bs : List Answer} → a ≡ b → as' ≡ bs → (a ∷ as') ≡ (b ∷ bs)
  both e f = cc

  -- With its callbacks set, the adapter gives the answers of the NATS store to any sequence of
  -- calls, the hashes of its puts included, and leaves the same cache and the same remote store.
  pub wasi_refines_nats :
      (calls : List Call) (s : WasiBlobStoreAdapter r)
      → s.connected ≡ true
      → ((answers wasi_step calls s).0 ≡ (answers nats_step calls (cached_of s)).0)
        × (cached_of (answers wasi_step calls s).1 ≡ (answers nats_step calls (cached_of s)).1)
  wasi_refines_nats [] s h = (refl, refl)
  wasi_refines_nats (c ∷ calls) s h =
      let (connected, same, state) = wasi_step-nats c s h in
      let (later, end) = wasi_refines_nats calls (wasi_step c s).1 connected in
      (
        both same (later ∙ ap (λ t. (answers nats_step calls t).0) state),
        end ∙ ap (λ t. (answers nats_step calls t).1) state,
      )

  -- Without callbacks the adapter gives the answers of an in-memory store of what its cache holds
  -- to any sequence of calls, keeps the same blobs, and leaves the remote store alone.
  pub wasi_alone :
      (calls : List Call) (s : WasiBlobStoreAdapter r)
      → s.connected ≡ false
      → ((answers wasi_step calls s).0 ≡ (answers memory_step calls (memory_of s)).0)
        × (memory_of (answers wasi_step calls s).1 ≡ (answers memory_step calls (memory_of s)).1)
        × ((answers wasi_step calls s).1.remote ≡ s.remote)
  wasi_alone [] s h = (refl, refl, refl)
  wasi_alone (c ∷ calls) s h =
      let (connected, same, state, untouched) = wasi_step-memory c s h in
      let (later, end, remote) = wasi_alone calls (wasi_step c s).1 connected in
      (
        both same (later ∙ ap (λ t. (answers memory_step calls t).0) state),
        end ∙ ap (λ t. (answers memory_step calls t).1) state,
        remote ∙ untouched,
      )
