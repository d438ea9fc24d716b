-- ===== src/VirtGit/Witnesses.antt =====
-- The theorems about stores, trees and workspaces at concrete inputs.
use alpha_swarm.Prelude.{
  none, if_some-cases, text_eq_iff, ◌⊎◌, inl, inr, sym, ◌∙◌, Text, text, text_eq, some, ◌≡◌, ◌↔◌,
  List, [], ◌∷◌, refl, false, true, contains, if◌then◌else◌, ◌&&◌,
}
use alpha_swarm.Prelude.Maps.{get, text_lt}
use alpha_swarm.VirtGit.Samples.{
  primitives, no_collisions, lossy, cold, adapter, lib_rs, main_rs, cloned, ours, theirs,
  cloned-Reached, ours-Reached, theirs-Reached,
}
use alpha_swarm.VirtGit.Store.{put, get_blob}
use alpha_swarm.VirtGit.Store.Remote.{nats_put, nats_get, nats_get-nats_put}
use alpha_swarm.VirtGit.Store.Remote.Calls.{
  Call, putting, getting, asking, deleting, answers, wasi_step, nats_step, memory_step, memory_of,
  cached_of, wasi_refines_nats, wasi_alone,
}
use alpha_swarm.VirtGit.Store.Addressing.{get_blob-put, IsKeyed, IsAddressed-IsKeyed}
use alpha_swarm.VirtGit.Tree.{read}
use alpha_swarm.VirtGit.Tree.Reads.{IsStored}
use alpha_swarm.VirtGit.Diff.{diff_trees}
use alpha_swarm.VirtGit.Diff.Paths.{paths_of, differ, diff_trees_paths}
use alpha_swarm.VirtGit.Workspace.{
  has_changes, commit, read_file, workspace_of, write_file, delete_file,
}
use alpha_swarm.VirtGit.Workspace.Changes.{has_changes_iff, commit_clears}
use alpha_swarm.VirtGit.Workspace.Merge.{merge, fork}
use alpha_swarm.VirtGit.Workspace.Merge.Conflicts.{
  sides_of, they_changed, we_changed, merge_conflicts,
}
use alpha_swarm.VirtGit.Workspace.Merge.FastForward.{merge_fast_forward}
use alpha_swarm.VirtGit.Workspace.Merge.Result.{can_take, merge_reads}
use alpha_swarm.VirtGit.Workspace.Sound.{IsSound}
use alpha_swarm.VirtGit.Workspace.Reached.{Reached-IsSound, Reached-read_file}

program : Unit {0}
unfolding write_file workspace_of delete_file fork text_eq text_lt
program = tt

ours-IsSound : IsSound primitives ours
ours-IsSound = Reached-IsSound primitives ours no_collisions ours-Reached

cloned-IsSound : IsSound primitives cloned
cloned-IsSound = Reached-IsSound primitives cloned no_collisions cloned-Reached

ours-IsStored : IsStored primitives (ours.0.working, ours.1)
ours-IsStored = record { addressed = ours-IsSound.addressed; whole = ours-IsSound.working_whole }

cloned-IsStored : IsStored primitives (cloned.0.working, cloned.1)
cloned-IsStored = record {
  addressed = cloned-IsSound.addressed;
  whole = cloned-IsSound.working_whole;
}

theirs-IsStored : IsStored primitives (theirs.0.working, theirs.1)
theirs-IsStored =
    let s = Reached-IsSound primitives theirs no_collisions theirs-Reached in
    record { addressed = s.addressed; whole = s.working_whole }

merge_reads_example :
    read
      (merge primitives ours theirs).store
      main_rs
      (merge primitives ours theirs).workspace.working
    ≡ (if they_changed (sides_of ours.0 theirs.0) main_rs
          && can_take theirs.1 (get main_rs theirs.0.working.entries)
        then read theirs.1 main_rs theirs.0.working
        else read ours.1 main_rs ours.0.working)
merge_reads_example =
    merge_reads primitives ours theirs main_rs no_collisions ours-IsStored theirs-IsStored.addressed

merge_conflicts_example : contains (merge primitives ours theirs).conflicts main_rs ≡ (
    they_changed (sides_of ours.0 theirs.0) main_rs
    && we_changed (sides_of ours.0 theirs.0) main_rs)
merge_conflicts_example = merge_conflicts primitives ours theirs main_rs

-- Their writing the file that we wrote is a conflict; their deleting the other is not.
ours_conflicts :
    (contains (merge primitives ours theirs).conflicts main_rs ≡ true)
    × (contains (merge primitives ours theirs).conflicts lib_rs ≡ false)
unfolding merge program
ours_conflicts = (refl, refl)

merge_fast_forward_example :
    (read
        (merge primitives cloned theirs).store
        lib_rs
        (merge primitives cloned theirs).workspace.working
      ≡ read theirs.1 lib_rs theirs.0.working)
    × (contains (merge primitives cloned theirs).conflicts lib_rs ≡ false)
merge_fast_forward_example =
    merge_fast_forward primitives cloned theirs lib_rs no_collisions cloned-IsStored theirs-IsStored
      (unfold workspace_of in refl)

Reached-IsSound_example : IsSound primitives theirs
Reached-IsSound_example = Reached-IsSound primitives theirs no_collisions theirs-Reached

Reached-read_file_example : (c : Text) × (read_file theirs.1 main_rs theirs.0 ≡ some c)
unfolding program
Reached-read_file_example =
    Reached-read_file primitives theirs main_rs no_collisions theirs-Reached refl

has_changes_iff_example :
    (has_changes ours.0 ≡ false)
    ↔ ((q : Text) → get q ours.0.base.entries ≡ get q ours.0.working.entries)
has_changes_iff_example = has_changes_iff ours.0 ours-IsSound.working_distinct

commit_clears_example :
    (has_changes (commit primitives 7 (text "edit") ours.0).1 ≡ false)
    × ((commit primitives 7 (text "edit") ours.0).1.working.entries ≡ ours.0.working.entries)
commit_clears_example =
    commit_clears primitives 7 (text "edit") ours.0 ours-IsSound.working_distinct

diff_trees_paths_example :
    contains (paths_of (diff_trees primitives ours.1 ours.0.base ours.0.working)) main_rs
    ≡ differ (get main_rs ours.0.base.entries) (get main_rs ours.0.working.entries)
diff_trees_paths_example =
    diff_trees_paths primitives ours.1 ours.0.base ours.0.working main_rs ours-IsSound.base_distinct

get_blob-put_example :
    (get_blob (text "v2") (put primitives (text "v1") ours.1).1
      ≡ (if text_eq (text "v1") (text "v2") then some (text "v1") else get_blob (text "v2") ours.1))
    × IsKeyed primitives (put primitives (text "v1") ours.1).1
get_blob-put_example =
    get_blob-put primitives no_collisions (text "v1") (text "v2") ours.1
      (IsAddressed-IsKeyed primitives ours.1 ours-IsSound.addressed)

nats_get-nats_put_example :
    ((nats_put primitives lossy (text "main") cold).0 ≡ primitives.content_hash (text "main"))
    × (nats_get primitives lossy
          (primitives.content_hash (text "main"))
          (nats_put primitives lossy (text "main") cold).1
        ≡ some (text "main"))
nats_get-nats_put_example =
    nats_get-nats_put primitives lossy (text "main") cold no_collisions
      λ h c e. under h c (if_some-cases (text_eq (text "lib") h) (text "lib") c none e)
  where
    under :
        (h c : Text)
        → ((text_eq (text "lib") h ≡ true) × (text "lib" ≡ c))
          ⊎ ((text_eq (text "lib") h ≡ false) × (none ≡ some c))
        → c ≡ h
    under h c (inl (same, is_c)) = sym is_c ∙ (text_eq_iff (text "lib") h).0 same
    under h c (inr (other, absurd)) = cc

abbrev calls : List Call
calls =
    putting (text "main")
    ∷ getting (text "main")
    ∷ asking (text "old")
    ∷ deleting (text "old")
    ∷ getting (text "old")
    ∷ []

wasi_refines_nats_example :
    ((answers (wasi_step primitives lossy) calls (adapter true)).0
      ≡ (answers (nats_step primitives lossy) calls (cached_of primitives lossy (adapter true))).0)
    × (cached_of primitives lossy (answers (wasi_step primitives lossy) calls (adapter true)).1
        ≡ (answers
            (nats_step primitives lossy)
            calls
            (cached_of primitives lossy (adapter true))).1)
wasi_refines_nats_example = wasi_refines_nats primitives lossy calls (adapter true) refl

wasi_alone_example :
    ((answers (wasi_step primitives lossy) calls (adapter false)).0
      ≡ (answers
          (memory_step primitives lossy)
          calls
          (memory_of primitives lossy (adapter false))).0)
    × (memory_of primitives lossy (answers (wasi_step primitives lossy) calls (adapter false)).1
        ≡ (answers
            (memory_step primitives lossy)
            calls
            (memory_of primitives lossy (adapter false))).1)
    × ((answers (wasi_step primitives lossy) calls (adapter false)).1.remote
        ≡ (adapter false).remote)
wasi_alone_example = wasi_alone primitives lossy calls (adapter false) refl
