-- ===== src/Orchestrator/Witnesses.antt =====
-- The theorems about the swarm runner at concrete inputs.
use alpha_swarm.Prelude.{text, text_eq, [], ◌∷◌, none, some, err, refl}
use alpha_swarm.Orchestrator.Task.{SubTask, Complexity}
use alpha_swarm.Orchestrator.Runner.Control.{ControlState}
use alpha_swarm.Orchestrator.Runner.Waves.{Agents, waves}
use alpha_swarm.Orchestrator.Runner.Waves.Outside.{HasNone, waves_outside}

-- Its dependency `a` ran in an earlier call.
abbrev second : SubTask
second = record {
  id = text "b";
  description = text "second";
  files = [];
  complexity = Complexity.simple;
  depends_on = text "a" ∷ [];
  edit = none;
  template = none;
}

abbrev agents : Agents
agents = record {
  control = λ w. ControlState.continue;
  create = λ w t. none;
  run = λ w t. some (err (text "no model"));
}

waves_outside_example : HasNone (text "b") (waves agents 4 (second ∷ []) 5 0 [])
unfolding text_eq
waves_outside_example = waves_outside agents 4 5 (second ∷ []) (text "b") refl
