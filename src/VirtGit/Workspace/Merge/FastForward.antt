-- ===== src/VirtGit/Workspace/Merge/FastForward.antt =====
-- Merging into a workspace without uncommitted changes.
use alpha_swarm.Prelude.{
  Text, text_eq_iff, Option, none, some, true, false, ◌≡◌, refl, sym, ◌↔◌, ◌∙◌, ap, arith,
  Bool-cases, Option-cases, inl, inr, contains,
}
use alpha_swarm.Prelude.Maps.{get}
use alpha_swarm.VirtGit.Store.{Primitives, MemoryBlobStore}
use alpha_swarm.VirtGit.Store.Addressing.{CollisionFree}
use alpha_swarm.VirtGit.Tree.{TreeSnapshot, read}
use alpha_swarm.VirtGit.Tree.Reads.{IsStored, read_at}
use alpha_swarm.VirtGit.Workspace.{VirtWorkspace}
use alpha_swarm.VirtGit.Workspace.Merge.{same_hash, merge}
use alpha_swarm.VirtGit.Workspace.Merge.Result.{can_take, merge_reads}
use alpha_swarm.VirtGit.Workspace.Merge.Conflicts.{they_changed, sides_of, merge_conflicts}

same_hash_iff : (a b : Option Text) → (same_hash a b ≡ true) ↔ (a ≡ b)
same_hash_iff none none = ground arith
same_hash_iff none (some b) = ground arith
same_hash_iff (some a) none = ground arith
same_hash_iff (some a) (some b) = ground (arith, text_eq_iff a b)

-- Two stored trees with the same entry at a path read the same there.
read_agree :
    (p : Primitives) (t u : TreeSnapshot × MemoryBlobStore) (q : Text)
    → CollisionFree p
    → IsStored p t
    → IsStored p u
    → get q t.0.entries ≡ get q u.0.entries
    → read t.1 q t.0 ≡ read u.1 q u.0
read_agree p t u q distinct ok ok' same = elim (Option-cases (get q u.0.entries)) [
  | inl absent ↦ read_at t.1 q t.0 none (same ∙ absent) ∙ sym (read_at u.1 q u.0 none absent)
  | inr (h, named) ↦
      let (c, found) = ok.whole q h (same ∙ named) in
      let (d, found') = ok'.whole q h named in
      let c_is_d : c ≡ d =
        distinct c d ((ok.addressed h c found).0 ∙ sym (ok'.addressed h d found').0) in
      read_at t.1 q t.0 (some h) (same ∙ named)
      ∙ (found ∙ (ap some c_is_d ∙ (sym found' ∙ sym (read_at u.1 q u.0 (some h) named))))
]

takes_whole :
    (p : Primitives) (t : TreeSnapshot × MemoryBlobStore) (q : Text)
    → IsStored p t
    → can_take t.1 (get q t.0.entries) ≡ true
takes_whole p t q ok = elim (Option-cases (get q t.0.entries)) [
  | inl absent ↦ rw absent refl
  | inr (h, named) ↦ let (c, found) = ok.whole q h named in rw (named, found, can_take) refl
]

-- Merging into a workspace without uncommitted changes is a fast-forward: every path reads as
-- theirs, and there is no conflict. No two contents may have one hash, and in both workspaces the
-- store has the blob of every entry of the working tree, with every blob UTF-8 and kept under its
-- own hash.
pub merge_fast_forward :
    (p : Primitives) (ours theirs : VirtWorkspace × MemoryBlobStore) (q : Text)
    → CollisionFree p
    → IsStored p (ours.0.working, ours.1)
    → IsStored p (theirs.0.working, theirs.1)
    → ours.0.base.entries ≡ ours.0.working.entries
    → (read (merge p ours theirs).store q (merge p ours theirs).workspace.working
        ≡ read theirs.1 q theirs.0.working)
      × (contains (merge p ours theirs).conflicts q ≡ false)
merge_fast_forward p ours theirs q distinct ok theirs_ok clean = (
  merge_reads p ours theirs q distinct ok theirs_ok.addressed
      ∙ (elim (Bool-cases (they_changed (sides_of ours.0 theirs.0) q)) [
        | inl changed ↦ rw (changed, takes_whole p (theirs.0.working, theirs.1) q theirs_ok) refl
        | inr same ↦ rw same (
            read_agree p (ours.0.working, ours.1) (theirs.0.working, theirs.1) q distinct ok
              theirs_ok
              (ap (get q) (sym clean)
                ∙ sym (
                    (same_hash_iff (get q theirs.0.working.entries) (get q ours.0.base.entries)).0
                      (ground arith))))
      ]),
  rw (merge_conflicts p ours theirs q) (
      ground (
        arith,
        (same_hash_iff (get q ours.0.working.entries) (get q ours.0.base.entries)).1
            (ap (get q) (sym clean)),
      )),
)
