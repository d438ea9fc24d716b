-- ===== src/Events/Scheduler/Release.antt =====
-- What a daemon finds after it has released all leases at its start.
use alpha_swarm.Prelude.{
  ℕ, zero, suc, Text, text_eq, text_eq_iff, List, [], ◌∷◌, some, true, false, ◌≡◌, refl, subst,
  Bool-cases, inl, inr, contains, ok,
}
use alpha_swarm.Events.Bucket.{Bucket, IsReliable, is_held}
use alpha_swarm.Events.Keys.{lease_key, slot_key}
use alpha_swarm.Events.Scheduler.{
  EntryJson, try_claim, purge_all, release_all_leases, acquire_from, try_acquire_execution_slot,
  at_least_one, number_of,
}

module _ (b : Bucket) (json : EntryJson) (law : IsReliable b) where
  purge_all_free :
      (ks : List Text) (k : Text) (s : b.State)
      → is_held b k s ≡ false
      → is_held b k (purge_all b json ks s) ≡ false
  unfolding purge_all
  purge_all_free [] k s h = h
  purge_all_free (j ∷ ks) k s h =
      purge_all_free ks k (b.purge j s).1 (law.purge_frees_no_more j k s h)

  purge_all_listed :
      (ks : List Text) (k : Text) (s : b.State)
      → contains ks k ≡ true
      → is_held b k (purge_all b json ks s) ≡ false
  unfolding purge_all
  purge_all_listed [] k s h = cc
  purge_all_listed (j ∷ ks) k s h = elim (Bool-cases (text_eq j k)) [
    | inl same ↦ purge_all_free ks k (b.purge j s).1 (
        subst (λ i. is_held b i (b.purge j s).1 ≡ false) ((text_eq_iff j k).0 same)
          (law.purge_frees j s))
    | inr other ↦ purge_all_listed ks k (b.purge j s).1 (rw other at h)
  ]

  released :
      (s : b.State) (ks : List Text) (k : Text)
      → b.keys_of s ≡ some ks
      → is_held b k (purge_all b json ks s) ≡ false
  released s ks k e = elim (Bool-cases (contains ks k)) [
    | inl listed ↦ purge_all_listed ks k s listed
    | inr absent ↦ purge_all_free ks k s (law.keys_complete s ks k e absent)
  ]

  release_all_leases_eq :
      (s : b.State) (ks : List Text)
      → b.keys_of s ≡ some ks
      → release_all_leases b json s ≡ (ok (number_of ks), purge_all b json ks s)
  unfolding release_all_leases
  release_all_leases_eq s ks e = rw (e, release_all_leases) refl

  acquire_first :
      (slots : ℕ) (value : ℕ → Text) (t : b.State)
      → is_held b (slot_key 0) t ≡ false
      → (acquire_from b json (at_least_one slots) 0 value t).0 ≡ some 0
  unfolding acquire_from
  acquire_first zero value t h = rw (law.create_succeeds (slot_key 0) (value 0) t h) refl
  acquire_first (suc n) value t h = rw (law.create_succeeds (slot_key 0) (value 0) t h) refl

-- While the service is reachable, releasing all leases reports the number of keys and frees every
-- one, so that any run can then be claimed and the first execution slot acquired, whatever a
-- crashed daemon had left.
pub release_all_leases_lem :
    (b : Bucket) (json : EntryJson) (daemon run run' now : Text) (times : ℕ → Text) (slots : ℕ)
    (s : b.State) (ks : List Text)
    → IsReliable b
    → b.keys_of s ≡ some ks
    → ((release_all_leases b json s).0 ≡ ok (number_of ks))
      × ((k : Text) → is_held b k (release_all_leases b json s).1 ≡ false)
      × ((try_claim b json daemon run now (release_all_leases b json s).1).0 ≡ true)
      × ((try_acquire_execution_slot b json daemon run' times slots
            (release_all_leases b json s).1).0
          ≡ some 0)
unfolding try_claim try_acquire_execution_slot
release_all_leases_lem b json daemon run run' now times slots s ks law e =
    rw (release_all_leases_eq b json law s ks e) (
      refl,
      (λ k. released b json law s ks k e),
      law.create_succeeds (lease_key run) _ _ (released b json law s ks (lease_key run) e),
      acquire_first b json law slots _ _ (released b json law s ks (slot_key 0) e),
    )
