-- ===== src/Events/Scheduler/Exclusion.antt =====
-- Leases, locks and slots exclude each other: what was taken stays taken until it is released or
-- expires.
use alpha_swarm.Prelude.{
  ℕ, zero, suc, ◌+◌, ◌≤◌, ◌<◌, Text, text_eq, some, Bool, true, false, ◌≡◌, ◌≢◌, refl, subst, arith,
  Bool-cases, inl, inr, not_both,
}
use alpha_swarm.Events.Bucket.{Bucket, IsBucket, is_held}
use alpha_swarm.Events.Keys.{lease_key, project_lock_key, slot_key}
use alpha_swarm.Events.Scheduler.{
  EntryJson, done_or, try_claim, release_lease, renew_lease, try_acquire_project_lock,
  release_project_lock, renew_project_lock, acquire_from, try_acquire_execution_slot,
  release_execution_slot, renew_execution_slot, at_least_one, lock_of,
}

-- Any daemons' calls, in any order, that neither release the key nor let it expire.
pub data Meanwhile (b : Bucket) (json : EntryJson) (key : Text) : b.State → b.State → Type 0 where
  nothing : {s : b.State} → Meanwhile b json key s s
  claims :
      {s t : b.State} (daemon run now : Text)
      → Meanwhile b json key s t
      → Meanwhile b json key s (try_claim b json daemon run now t).1
  renews :
      {s t : b.State} (daemon run now : Text)
      → Meanwhile b json key s t
      → Meanwhile b json key s (renew_lease b json daemon run now t).1
  releases :
      {s t : b.State} (run : Text)
      → text_eq (lease_key run) key ≡ false
      → Meanwhile b json key s t
      → Meanwhile b json key s (release_lease b json run t).1
  locks :
      {s t : b.State} (daemon project run now : Text)
      → Meanwhile b json key s t
      → Meanwhile b json key s (try_acquire_project_lock b json daemon project run now t).1
  unlocks :
      {s t : b.State} (project : Text)
      → text_eq (project_lock_key project) key ≡ false
      → Meanwhile b json key s t
      → Meanwhile b json key s (release_project_lock b json project t).1
  relocks :
      {s t : b.State} (daemon project run now : Text)
      → Meanwhile b json key s t
      → Meanwhile b json key s (renew_project_lock b json daemon project run now t).1
  takes_slot :
      {s t : b.State} (daemon run : Text) (now : ℕ → Text) (slots : ℕ)
      → Meanwhile b json key s t
      → Meanwhile b json key s (try_acquire_execution_slot b json daemon run now slots t).1
  frees_slot :
      {s t : b.State} (slot : ℕ)
      → text_eq (slot_key slot) key ≡ false
      → Meanwhile b json key s t
      → Meanwhile b json key s (release_execution_slot b json slot t).1
  renews_slot :
      {s t : b.State} (daemon run now : Text) (slot : ℕ)
      → Meanwhile b json key s t
      → Meanwhile b json key s (renew_execution_slot b json daemon slot run now t).1
  expires :
      {s t : b.State} (other : Text)
      → text_eq other key ≡ false
      → Meanwhile b json key s t
      → Meanwhile b json key s (b.expire other t)

done_or_state : {S : Type 0} (what : Text) (r : Bool × S) → (done_or what r).1 ≡ r.1
done_or_state what (true, s) = refl
done_or_state what (false, s) = refl

module _ (b : Bucket) (json : EntryJson) (law : IsBucket b) where
  acquire_from_keeps :
      (left i : ℕ) (value : ℕ → Text) (key : Text) (s : b.State)
      → is_held b key s ≡ true
      → is_held b key (acquire_from b json left i value s).1 ≡ true
  unfolding acquire_from
  acquire_from_keeps zero i value key s h = h
  acquire_from_keeps (suc left) i value key s h =
      let t = (b.create (slot_key i) (value i) s).1 in
      let held = law.create_keeps (slot_key i) (value i) key s h in
      elim (Bool-cases (b.create (slot_key i) (value i) s).0) [
        | inl created ↦ rw created held
        | inr taken ↦ rw taken (acquire_from_keeps left (suc i) value key t held)
      ]

  pub Meanwhile-is_held :
      (key : Text) (s t : b.State)
      → Meanwhile b json key s t
      → is_held b key s ≡ true
      → is_held b key t ≡ true
  unfolding try_claim renew_lease release_lease try_acquire_project_lock release_project_lock
      renew_project_lock try_acquire_execution_slot release_execution_slot renew_execution_slot
  Meanwhile-is_held key s _ nothing h = h
  Meanwhile-is_held key s _ (claims {t = t} daemon run now m) h =
      law.create_keeps (lease_key run) _ key t (Meanwhile-is_held key s t m h)
  Meanwhile-is_held key s _ (renews {t = t} daemon run now m) h =
      rw (done_or_state _ _)
        (law.write_keeps (lease_key run) _ key t (Meanwhile-is_held key s t m h))
  Meanwhile-is_held key s _ (releases {t = t} run other m) h =
      rw (done_or_state _ _)
        (law.purge_keeps (lease_key run) key t other (Meanwhile-is_held key s t m h))
  Meanwhile-is_held key s _ (locks {t = t} daemon project run now m) h =
      law.create_keeps (project_lock_key project) _ key t (Meanwhile-is_held key s t m h)
  Meanwhile-is_held key s _ (unlocks {t = t} project other m) h =
      rw (done_or_state _ _)
        (law.purge_keeps (project_lock_key project) key t other (Meanwhile-is_held key s t m h))
  Meanwhile-is_held key s _ (relocks {t = t} daemon project run now m) h =
      rw (done_or_state _ _)
        (law.write_keeps (project_lock_key project) _ key t (Meanwhile-is_held key s t m h))
  Meanwhile-is_held key s _ (takes_slot {t = t} daemon run now slots m) h =
      acquire_from_keeps (at_least_one slots) 0 (λ i. lock_of b json daemon run (now i)) key t
        (Meanwhile-is_held key s t m h)
  Meanwhile-is_held key s _ (frees_slot {t = t} slot other m) h =
      law.purge_keeps (slot_key slot) key t other (Meanwhile-is_held key s t m h)
  Meanwhile-is_held key s _ (renews_slot {t = t} daemon run now slot m) h =
      rw (done_or_state _ _)
        (law.write_keeps (slot_key slot) _ key t (Meanwhile-is_held key s t m h))
  Meanwhile-is_held key s _ (expires {t = t} other apart m) h =
      law.expire_keeps other key t apart (Meanwhile-is_held key s t m h)

  -- A create on a held key fails.
  create_held : (k v : Text) (s : b.State) → is_held b k s ≡ true → (b.create k v s).0 ≡ false
  create_held k v s h = elim (Bool-cases (b.create k v s).0) [
    | inl created ↦ elim (not_both (is_held b k s) h (law.create_free k v s created).0) [ ]
    | inr failed ↦ failed
  ]

  -- An acquired slot is one of those asked for, and is held.
  acquire_from-some :
      (left i j : ℕ) (value : ℕ → Text) (s : b.State)
      → (acquire_from b json left i value s).0 ≡ some j
      → (i ≤ j)
        × (j < i + left)
        × (is_held b (slot_key j) (acquire_from b json left i value s).1 ≡ true)
  unfolding acquire_from
  acquire_from-some zero i j value s e = cc
  acquire_from-some (suc left) i j value s e =
      let t = (b.create (slot_key i) (value i) s).1 in
      elim (Bool-cases (b.create (slot_key i) (value i) s).0) [
        | inl created ↦
            let first : some i ≡ some j = rw created at e in
            let same : i ≡ j = cc in
            rw created (
              omega arith,
              omega arith,
              subst (λ k. is_held b (slot_key k) t ≡ true) same
                  (law.create_free (slot_key i) (value i) s created).1,
            )
        | inr taken ↦
            let (above, below, held) = acquire_from-some left (suc i) j value t (rw taken at e) in
            rw taken (omega arith, omega arith, held)
      ]

  acquire_from_other :
      (left i j : ℕ) (value : ℕ → Text) (s : b.State)
      → is_held b (slot_key j) s ≡ true
      → (acquire_from b json left i value s).0 ≢ some j
  unfolding acquire_from
  acquire_from_other zero i j value s h e = cc
  acquire_from_other (suc left) i j value s h e =
      let t = (b.create (slot_key i) (value i) s).1 in
      elim (Bool-cases (b.create (slot_key i) (value i) s).0) [
        | inl created ↦
            let first : some i ≡ some j = rw created at e in
            let same : i ≡ j = cc in
            not_both (is_held b (slot_key j) s) h (
              subst (λ k. is_held b (slot_key k) s ≡ false) same
                (law.create_free (slot_key i) (value i) s created).0)
        | inr taken ↦
            acquire_from_other left (suc i) j value t
              (law.create_keeps (slot_key i) (value i) (slot_key j) s h) (rw taken at e)
      ]

-- A run that a daemon has claimed cannot be claimed again before its lease is released or expires,
-- whatever the daemons do meanwhile.
pub try_claim_exclusive :
    (b : Bucket) (json : EntryJson) (daemon other run now later : Text) (s t : b.State)
    → IsBucket b
    → (try_claim b json daemon run now s).0 ≡ true
    → Meanwhile b json (lease_key run) (try_claim b json daemon run now s).1 t
    → (try_claim b json other run later t).0 ≡ false
unfolding try_claim
try_claim_exclusive b json daemon other run now later s t law claimed m =
    create_held b json law (lease_key run) _ t (
      Meanwhile-is_held b json law (lease_key run) _ t m
        (law.create_free (lease_key run) _ s claimed).1)

-- An execution slot that was acquired is one of the slots asked for, of which there is at least
-- one, and it is not given out again before it is released or expires.
pub try_acquire_execution_slot_exclusive :
    (b : Bucket) (json : EntryJson) (daemon other run run' : Text) (now later : ℕ → Text)
    (slots slots' slot : ℕ) (s t : b.State)
    → IsBucket b
    → (try_acquire_execution_slot b json daemon run now slots s).0 ≡ some slot
    → Meanwhile b json
        (slot_key slot)
        (try_acquire_execution_slot b json daemon run now slots s).1
        t
    → (slot < at_least_one slots)
      × ((try_acquire_execution_slot b json other run' later slots' t).0 ≢ some slot)
unfolding try_acquire_execution_slot
try_acquire_execution_slot_exclusive b json daemon other run run' now later slots slots' slot s t
      law got m =
    let (above, below, held) = acquire_from-some b json law (at_least_one slots) 0 slot _ s got in
    (
      omega arith,
      acquire_from_other b json law (at_least_one slots') 0 slot _ t
          (Meanwhile-is_held b json law (slot_key slot) _ t m held),
    )
