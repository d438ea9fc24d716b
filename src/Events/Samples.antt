-- ===== src/Events/Samples.antt =====
-- A bucket that is a map, with two daemons and the run they want.
use alpha_swarm.Prelude.{ℕ, Text, text, [], ◌∷◌}
use alpha_swarm.Prelude.Maps.{Map}
use alpha_swarm.Events.Scheduler.{EntryJson}

abbrev pub json : EntryJson
json = record {
  task_json = λ e. e.goal;
  lease_json = λ e. e.daemon_id;
  lock_json = λ e. e.daemon_id;
}

abbrev pub daemon_a : Text
daemon_a = text "a"

abbrev pub daemon_b : Text
daemon_b = text "b"

abbrev pub run : Text
run = text "run:1"

abbrev pub noon : ℕ → Text
noon i = text "12:00"

-- What a crashed daemon left: a lease and the first slot.
abbrev pub left_behind : Map Text
left_behind = (text "lease.run.1", daemon_a) ∷ (text "goal-execution-lock.slot-0", daemon_a) ∷ []
