-- ===== src/VirtGit/Store.antt =====
-- crates/virt-git/src/store.rs: the blob store trait and its in-memory implementation.
pub mod Addressing
pub mod Remote
use alpha_swarm.Prelude.{ℕ, ◌+◌, Text, List, [], ◌∷◌, Option, Bool, length, if◌then◌else◌}
use alpha_swarm.Prelude.Maps.{Map, get, has_key, insert, remove}

-- What the crate takes from others: SHA-256 in hex, the JSON of a tree's entries, and the hunks of
-- a unified diff of two texts.
pub record Primitives : Type 0 where
  pub content_hash : Text → Text
  pub entries_json : Map Text → Text
  pub hunks : Text → Text → Text

pub record MemoryBlobStore : Type 0 where
  pub blobs : Map Text

abbrev pub new_store : MemoryBlobStore
new_store = record { blobs = [] }

unfoldable pub blob_count : MemoryBlobStore → ℕ
blob_count s = length s.blobs

abbrev sum_lengths : Map Text → ℕ
sum_lengths [] = 0
sum_lengths ((hash, content) ∷ m) = length content + sum_lengths m

unfoldable pub total_bytes : MemoryBlobStore → ℕ
total_bytes s = sum_lengths s.blobs

-- `entry(hash).or_insert_with(..)`: content that is stored already stays.
unfoldable pub put : Primitives → Text → MemoryBlobStore → Text × MemoryBlobStore
unfolding insert
put p content s =
    let hash = p.content_hash content in
    (hash, if has_key hash s.blobs then s else record s { blobs = insert hash content s.blobs })

abbrev pub get_blob : Text → MemoryBlobStore → Option Text
get_blob hash s = get hash s.blobs

abbrev pub blob_exists : Text → MemoryBlobStore → Bool
blob_exists hash s = has_key hash s.blobs

unfoldable pub delete : Text → MemoryBlobStore → MemoryBlobStore
unfolding remove
delete hash s = record s { blobs = remove hash s.blobs }
