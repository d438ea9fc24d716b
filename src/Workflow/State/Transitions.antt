-- ===== src/Workflow/State/Transitions.antt =====
-- The lifecycle of a run as a step relation: what a legal sequence of transitions can reach.
use alpha_swarm.Prelude.{◌≡◌, refl, ◌↔◌, true, false, arith}
use alpha_swarm.Workflow.State.{WorkflowState, can_transition, is_terminal}

pub data Reach (s : WorkflowState) : WorkflowState → Type 0 where
  here : Reach s s
  next : {t u : WorkflowState} → Reach s t → can_transition t u ≡ true → Reach s u

terminal_step : (s t : WorkflowState) → is_terminal s ≡ true → can_transition s t ≡ false
unfolding can_transition is_terminal
terminal_step s t h = ground arith

-- A terminal state absorbs: no sequence of legal transitions leaves it.
pub terminal_absorbs : (s t : WorkflowState) → is_terminal s ≡ true → Reach s t → s ≡ t
terminal_absorbs s t h here = refl
terminal_absorbs s t h (next {t = u} r step) =
    let same = terminal_absorbs s u h r in ground (arith, terminal_step s t)

-- A state is terminal exactly when it has no successor.
pub is_terminal-iff-stuck :
    (s : WorkflowState)
    → (is_terminal s ≡ true) ↔ ((t : WorkflowState) → can_transition s t ≡ false)
unfolding can_transition is_terminal
is_terminal-iff-stuck s = (
  λ h t. terminal_step s t h,
  λ stuck. ground (arith, stuck WorkflowState.running, stuck WorkflowState.cancelled),
)
