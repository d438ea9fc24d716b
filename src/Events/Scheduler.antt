-- ===== src/Events/Scheduler.antt =====
-- crates/events/src/scheduler.rs, `NatsScheduler`: tasks, leases, locks and execution slots. The
-- JSON of an entry is a parameter; `now` is the clock's time.
pub mod Exclusion
pub mod Release
use alpha_swarm.Prelude.{
  ℕ, zero, suc, ◌+◌, ◌-◌, Text, text, List, [], ◌∷◌, Option, none, some, Bool, true, false, Result,
  ok, err, if◌then◌else◌,
}
use alpha_swarm.Events.Bucket.{Bucket}
use alpha_swarm.Events.Keys.{task_key, lease_key, project_lock_key, slot_key, execution_lock_key}

pub record TaskEntry : Type 0 where
  pub run_id : Text
  pub project : Text
  pub goal : Text
  pub status : Text
  pub created_at : Text

pub record LeaseEntry : Type 0 where
  pub daemon_id : Text
  pub run_id : Text
  pub claimed_at : Text

-- The entry that a lock or a slot holds.
pub record LockEntry : Type 0 where
  pub daemon_id : Text
  pub run_id : Text
  pub acquired_at : Text

pub record EntryJson : Type 0 where
  pub task_json : TaskEntry → Text
  pub lease_json : LeaseEntry → Text
  pub lock_json : LockEntry → Text

-- A call's success, or the error that `context` names.
abbrev pub done_or {ℓ} : {S : Type ℓ} → Text → Bool × S → Result Text (Unit {0}) × S
done_or what (true, s) = (ok tt, s)
done_or what (false, s) = (err what, s)

-- `slots.max(1)`
abbrev pub at_least_one : ℕ → ℕ
at_least_one zero = 1
at_least_one (suc n) = suc n

abbrev pub number_of : List Text → ℕ
number_of [] = 0
number_of (k ∷ ks) = 1 + number_of ks

module _ (b : Bucket) (json : EntryJson) where
  abbrev pub lease_of : Text → Text → Text → Text
  lease_of daemon_id run_id now =
      json.lease_json (record { daemon_id = daemon_id; run_id = run_id; claimed_at = now })

  abbrev pub lock_of : Text → Text → Text → Text
  lock_of daemon_id run_id now =
      json.lock_json (record { daemon_id = daemon_id; run_id = run_id; acquired_at = now })

  unfoldable pub submit_task : TaskEntry → b.State → Result Text (Unit {0}) × b.State
  submit_task entry s =
      done_or (text "Failed to submit task to KV")
        (b.write (task_key entry.run_id) (json.task_json entry) s)

  unfoldable pub try_claim : Text → Text → Text → b.State → Bool × b.State
  try_claim daemon_id run_id now s = b.create (lease_key run_id) (lease_of daemon_id run_id now) s

  unfoldable pub release_lease : Text → b.State → Result Text (Unit {0}) × b.State
  release_lease run_id s = done_or (text "Failed to release lease") (b.purge (lease_key run_id) s)

  unfoldable pub purge_all : List Text → b.State → b.State
  purge_all [] s = s
  purge_all (k ∷ ks) s = purge_all ks (b.purge k s).1

  -- The number of keys that were listed, whether or not their purge succeeded.
  unfoldable pub release_all_leases : b.State → Result Text ℕ × b.State
  unfolding purge_all
  release_all_leases s = elim (b.keys_of s) [
    | none ↦ (err (text "Failed to list lease keys"), s)
    | some ks ↦ (ok (number_of ks), purge_all ks s)
  ]

  unfoldable pub renew_lease : Text → Text → Text → b.State → Result Text (Unit {0}) × b.State
  renew_lease daemon_id run_id now s =
      done_or (text "Failed to renew lease")
        (b.write (lease_key run_id) (lease_of daemon_id run_id now) s)

  unfoldable pub try_acquire_project_lock : Text → Text → Text → Text → b.State → Bool × b.State
  try_acquire_project_lock daemon_id project run_id now s =
      b.create (project_lock_key project) (lock_of daemon_id run_id now) s

  abbrev pub try_acquire_execution_lock : Text → Text → Text → b.State → Bool × b.State
  try_acquire_execution_lock daemon_id = try_acquire_project_lock daemon_id execution_lock_key

  unfoldable pub release_project_lock : Text → b.State → Result Text (Unit {0}) × b.State
  release_project_lock project s =
      done_or (text "Failed to release lock") (b.purge (project_lock_key project) s)

  abbrev pub release_execution_lock : b.State → Result Text (Unit {0}) × b.State
  release_execution_lock = release_project_lock execution_lock_key

  unfoldable pub renew_project_lock :
      Text → Text → Text → Text → b.State → Result Text (Unit {0}) × b.State
  renew_project_lock daemon_id project run_id now s =
      done_or (text "Failed to renew lock")
        (b.write (project_lock_key project) (lock_of daemon_id run_id now) s)

  abbrev pub renew_execution_lock : Text → Text → Text → b.State → Result Text (Unit {0}) × b.State
  renew_execution_lock daemon_id = renew_project_lock daemon_id execution_lock_key

  -- A key that is absent or cannot be read counts as free.
  unfoldable pub is_execution_lock_free : b.State → Bool
  is_execution_lock_free s = elim (b.lookup (project_lock_key execution_lock_key) s) [
    | ok none ↦ true
    | ok (some v) ↦ false
    | err e ↦ true
  ]

  -- The loop over the slots from `i`, `left` of them.
  unfoldable pub acquire_from : ℕ → ℕ → (ℕ → Text) → b.State → Option ℕ × b.State
  acquire_from zero i value s = (none, s)
  acquire_from (suc left) i value s =
      let (created, t) = b.create (slot_key i) (value i) s in
      let later = acquire_from left (suc i) value t in if created then (some i, t) else later

  -- `now` is the time at which a slot is tried.
  unfoldable pub try_acquire_execution_slot :
      Text → Text → (ℕ → Text) → ℕ → b.State → Option ℕ × b.State
  unfolding acquire_from
  try_acquire_execution_slot daemon_id run_id now slots s =
      acquire_from (at_least_one slots) 0 (λ i. lock_of daemon_id run_id (now i)) s

  unfoldable pub release_execution_slot : ℕ → b.State → Result Text (Unit {0}) × b.State
  release_execution_slot slot s = (ok tt, (b.purge (slot_key slot) s).1)

  unfoldable pub renew_execution_slot :
      Text → ℕ → Text → Text → b.State → Result Text (Unit {0}) × b.State
  renew_execution_slot daemon_id slot run_id now s =
      done_or (text "Failed to renew execution slot")
        (b.write (slot_key slot) (lock_of daemon_id run_id now) s)
