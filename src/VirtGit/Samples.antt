-- ===== src/VirtGit/Samples.antt =====
-- Concrete stores and workspaces, with a content as its own hash.
use alpha_swarm.Prelude.{Bool, Text, text, List, [], ◌∷◌, refl, is_utf8}
use alpha_swarm.VirtGit.Store.Remote.{Remote, CachedStore, WasiBlobStoreAdapter}
use alpha_swarm.Prelude.Maps.{Map, get, has_key}
use alpha_swarm.VirtGit.Store.{Primitives, MemoryBlobStore, new_store}
use alpha_swarm.VirtGit.Store.Addressing.{CollisionFree}
use alpha_swarm.VirtGit.Workspace.{VirtWorkspace, workspace_of, write_file, delete_file}
use alpha_swarm.VirtGit.Workspace.Merge.{fork}
use alpha_swarm.VirtGit.Workspace.Reached.{Reached, started, made, wrote, deleted, forked}

abbrev pub primitives : Primitives
primitives = record { content_hash = λ c. c; entries_json = λ m. []; hunks = λ a b. a }

pub no_collisions : CollisionFree primitives
no_collisions a b e = e

abbrev pub lib_rs : Text
lib_rs = text "lib.rs"

abbrev pub main_rs : Text
main_rs = text "main.rs"

abbrev pub files : List (Text × Text)
files = (main_rs, text "main") ∷ (lib_rs, text "lib") ∷ []

abbrev pub cloned : VirtWorkspace × MemoryBlobStore
cloned = workspace_of primitives files new_store

-- One side writes a file; a fork writes it too and deletes the other file.
abbrev pub ours : VirtWorkspace × MemoryBlobStore
ours = write_file primitives main_rs (text "ours") cloned

abbrev pub written : VirtWorkspace × MemoryBlobStore
written = write_file primitives main_rs (text "theirs") (fork cloned.0 cloned.1)

abbrev pub theirs : VirtWorkspace × MemoryBlobStore
theirs = (delete_file lib_rs written.0, written.1)

pub cloned-Reached : Reached primitives cloned
unfolding is_utf8
cloned-Reached = made files (refl, (refl, tt)) started

pub ours-Reached : Reached primitives ours
unfolding is_utf8
ours-Reached = wrote main_rs (text "ours") refl cloned-Reached

pub theirs-Reached : Reached primitives theirs
unfolding is_utf8
theirs-Reached = deleted lib_rs (wrote main_rs (text "theirs") refl (forked cloned-Reached))

-- A remote store that loses what is put.
abbrev pub lossy : Remote
lossy = record {
  State = Map Text;
  put_object = λ k c s. s;
  get_object = λ k s. get k s;
  has_object = λ k s. has_key k s;
  delete_object = λ k s. s;
}

abbrev pub cold : CachedStore lossy
cold = record { remote = []; cache = (text "lib", text "lib") ∷ [] }

abbrev pub adapter : Bool → WasiBlobStoreAdapter lossy
adapter connected = record {
  container = text "agents";
  connected = connected;
  remote = (text "blob/old", text "old") ∷ [];
  cache = (text "lib", text "lib") ∷ [];
}
