-- ===== src/VirtGit/Tree.antt =====
-- crates/virt-git/src/tree.rs: a snapshot of paths and the hashes of their contents.
pub mod Reads
use alpha_swarm.Prelude.{
  ℕ, Text, is_utf8, List, [], ◌∷◌, Option, none, some, Bool, true, false, length, if◌then◌else◌,
}
use alpha_swarm.Prelude.Maps.{Map, get, has_key, keys}
use alpha_swarm.Prelude.Maps
use alpha_swarm.VirtGit.Store.{Primitives, MemoryBlobStore, put, get_blob}

pub record TreeSnapshot : Type 0 where
  pub entries : Map Text
  pub cached_hash : Option Text

abbrev pub new_tree : TreeSnapshot
new_tree = record { entries = []; cached_hash = none }

unfoldable pub insert_file :
    Primitives → Text → Text → TreeSnapshot × MemoryBlobStore → TreeSnapshot × MemoryBlobStore
unfolding put Maps.insert
insert_file p path content (tree, store) =
    let (hash, store') = put p content store in
    (record tree { entries = Maps.insert path hash tree.entries; cached_hash = none }, store')

-- One more file of `from_files`, which leaves the cache as it is.
abbrev pub add_file :
    Primitives → Text → Text → TreeSnapshot × MemoryBlobStore → TreeSnapshot × MemoryBlobStore
add_file p path content (tree, store) =
    let (hash, store') = put p content store in
    (record tree { entries = Maps.insert path hash tree.entries }, store')

abbrev pub add_files :
    Primitives
    → List (Text × Text)
    → TreeSnapshot × MemoryBlobStore
    → TreeSnapshot × MemoryBlobStore
add_files p [] t = t
add_files p ((path, content) ∷ files) t = add_files p files (add_file p path content t)

unfoldable pub from_files :
    Primitives → List (Text × Text) → MemoryBlobStore → TreeSnapshot × MemoryBlobStore
unfolding put Maps.insert
from_files p files store = add_files p files (new_tree, store)

abbrev pub is_some {ℓ} : {A : Type ℓ} → Option A → Bool
is_some none = false
is_some (some a) = true

unfoldable pub remove_file : Text → TreeSnapshot → Bool × TreeSnapshot
unfolding Maps.remove
remove_file path tree = (
  is_some (get path tree.entries),
  record tree { entries = Maps.remove path tree.entries; cached_hash = none },
)

abbrev pub stored_at : MemoryBlobStore → Option Text → Option Text
stored_at store none = none
stored_at store (some hash) = get_blob hash store

unfoldable pub read : MemoryBlobStore → Text → TreeSnapshot → Option Text
read store path tree = stored_at store (get path tree.entries)

-- `String::from_utf8(bytes).ok()`
abbrev pub utf8_of : Option Text → Option Text
utf8_of none = none
utf8_of (some bytes) = if is_utf8 bytes then some bytes else none

unfoldable pub read_string : MemoryBlobStore → Text → TreeSnapshot → Option Text
unfolding read is_utf8
read_string store path tree = utf8_of (read store path tree)

abbrev pub exists : Text → TreeSnapshot → Bool
exists path tree = has_key path tree.entries

abbrev pub list_files : TreeSnapshot → List Text
list_files tree = keys tree.entries

abbrev pub file_count : TreeSnapshot → ℕ
file_count tree = length tree.entries

abbrev pub blob_hash : Text → TreeSnapshot → Option Text
blob_hash path tree = get path tree.entries

unfoldable pub hash : Primitives → TreeSnapshot → Text × TreeSnapshot
hash p tree = elim tree.cached_hash [
  | some h ↦ (h, tree)
  | none ↦
      let h = p.content_hash (p.entries_json tree.entries) in
      (h, record tree { cached_hash = some h })
]
