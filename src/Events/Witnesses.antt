-- ===== src/Events/Witnesses.antt =====
-- The theorems about the scheduler at concrete inputs.
use alpha_swarm.Prelude.{
  ◌<◌, Text, text, text_eq, [], some, ok, true, false, ◌≡◌, ◌≢◌, refl, decimal,
}
use alpha_swarm.Prelude.Maps.{Map, keys, text_lt, insert}
use alpha_swarm.Events.Bucket.{map_bucket, map_bucket-IsBucket, map_bucket-IsReliable, is_held}
use alpha_swarm.Events.Keys.{
  sanitize_key, AllSafe, sanitize_key_lem, lease_key, slot_key, project_lock_key,
}
use alpha_swarm.Events.Scheduler.{
  try_claim, try_acquire_execution_slot, release_all_leases, renew_lease, at_least_one, number_of,
}
use alpha_swarm.Events.Scheduler.Exclusion.{
  nothing, renews, claims, try_claim_exclusive, try_acquire_execution_slot_exclusive,
}
use alpha_swarm.Events.Scheduler.Release.{release_all_leases_lem}
use alpha_swarm.Events.Samples.{json, daemon_a, daemon_b, run, noon, left_behind}

program : Unit {0}
unfolding try_claim try_acquire_execution_slot sanitize_key text_eq text_lt decimal insert
program = tt

abbrev claimed : Map Text
claimed = (try_claim map_bucket json daemon_a run (noon 0) []).1

abbrev with_slot : Map Text
with_slot = (try_acquire_execution_slot map_bucket json daemon_a run noon 2 []).1

try_claim_exclusive_example :
    (try_claim map_bucket json daemon_b run
      (noon 1)
      (renew_lease map_bucket json daemon_a run (noon 1) claimed).1).0
    ≡ false
unfolding program
try_claim_exclusive_example =
    try_claim_exclusive map_bucket json daemon_a daemon_b run (noon 0) (noon 1) []
      (renew_lease map_bucket json daemon_a run (noon 1) claimed).1 map_bucket-IsBucket refl
      (renews daemon_a run (noon 1) nothing)

try_acquire_execution_slot_exclusive_example :
    (0 < at_least_one 2)
    × ((try_acquire_execution_slot map_bucket json daemon_b run noon 2
          (try_claim map_bucket json daemon_b run (noon 0) with_slot).1).0
        ≢ some 0)
unfolding program
try_acquire_execution_slot_exclusive_example =
    try_acquire_execution_slot_exclusive map_bucket json daemon_a daemon_b run run noon noon 2 2 0
      [] (try_claim map_bucket json daemon_b run (noon 0) with_slot).1 map_bucket-IsBucket refl
      (claims daemon_b run (noon 0) nothing)

release_all_leases_lem_example :
    ((release_all_leases map_bucket json left_behind).0 ≡ ok (number_of (keys left_behind)))
    × ((k : Text) → is_held map_bucket k (release_all_leases map_bucket json left_behind).1 ≡ false)
    × ((try_claim map_bucket json daemon_b run
          (noon 0)
          (release_all_leases map_bucket json left_behind).1).0
        ≡ true)
    × ((try_acquire_execution_slot map_bucket json daemon_b run noon 1
          (release_all_leases map_bucket json left_behind).1).0
        ≡ some 0)
release_all_leases_lem_example =
    release_all_leases_lem map_bucket json daemon_b run run (noon 0) noon 1 left_behind
      (keys left_behind) map_bucket-IsReliable refl

sanitize_key_lem_example :
    AllSafe (sanitize_key run) × (sanitize_key (sanitize_key run) ≡ sanitize_key run)
sanitize_key_lem_example = sanitize_key_lem run

-- A project of this name has the key of the first execution slot.
slot_project : project_lock_key (text "slot-0") ≡ slot_key 0
unfolding program
slot_project = refl

-- Two runs with one lease.
shared_lease : lease_key (text "run:1") ≡ lease_key (text "run.1")
unfolding program
shared_lease = refl
