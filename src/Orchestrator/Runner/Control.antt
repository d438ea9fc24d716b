-- ===== src/Orchestrator/Runner/Control.antt =====
-- crates/orchestrator/src/runner.rs: `RunControl`, one atomic byte that the bridge writes and that
-- the runner and the engine read. Every access is one sequentially consistent load or store.
use alpha_swarm.Prelude.{ℕ, nat_eq, if◌then◌else◌}

pub data ControlState : Type 0 where
  continue pause cancel : ControlState

abbrev control_continue : ℕ
control_continue = 0

abbrev control_pause : ℕ
control_pause = 1

abbrev control_cancel : ℕ
control_cancel = 2

pub record RunControl : Type 0 where
  pub state : ℕ

unfoldable pub new : RunControl
new = record { state = control_continue }

unfoldable pub request_pause : RunControl → RunControl
request_pause c = record { state = control_pause }

unfoldable pub request_cancel : RunControl → RunControl
request_cancel c = record { state = control_cancel }

unfoldable pub resume : RunControl → RunControl
resume c = record { state = control_continue }

unfoldable pub control_state : RunControl → ControlState
control_state c =
    if nat_eq c.state control_pause
    then pause
    else if nat_eq c.state control_cancel
    then cancel
    else continue
