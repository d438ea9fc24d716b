-- ===== src/Workflow/Witnesses.antt =====
-- The theorems about workflows at concrete inputs.
use alpha_swarm.Prelude.{
  none, ℕ, ◌≤◌, text, text_eq, List, [], ◌∷◌, Text, map, length, ◌<◌, ◌≡◌, ◌↔◌, refl, arith, true,
  here, there, contains, is_utf8, is_prefix, decimal, Distinct, count,
}
use alpha_swarm.Orchestrator.Runner.{ModifiedFile}
use alpha_swarm.Workflow.State.{WorkflowState, StepState, is_terminal, is_passed}
use alpha_swarm.Workflow.State.Transitions.{here as start, terminal_absorbs}
use alpha_swarm.Workflow.Model.{
  CapturedFile, WorkflowStep, WorkflowRun, step_ids, from_task, from_tasks,
}
use alpha_swarm.Workflow.Model.Checkpoint.{
  lookup, total_bytes, absorb_captured, reset_passed_steps, max_checkpoint_file_bytes,
  max_checkpoint_total_bytes,
}
use alpha_swarm.Workflow.Model.Checkpoint.Latest.{latest, absorb_captured-latest}
use alpha_swarm.Workflow.Model.Checkpoint.Limits.{
  IsSound, absorb_captured-IsSound, absorb_captured_bounded, absorb_captured_replaces,
}
use alpha_swarm.Workflow.Model.Checkpoint.Reset.{Resets, reset_passed_steps_lem}
use alpha_swarm.Workflow.Model.{mark_step}
use alpha_swarm.Workflow.Model.Ready.{ready_agent_tasks}
use alpha_swarm.Workflow.Model.Ready.Dispatch.{IsDue, ready_agent_tasks_lem}
use alpha_swarm.Workflow.Model.Splice.{doomed_ids, splice_replan}
use alpha_swarm.Workflow.Model.Splice.Closure.{IsDoomed, doomed_ids-iff-IsDoomed}
use alpha_swarm.Workflow.Model.Splice.Survivors.{splice_replan-Distinct, splice_replan_no_dangling}
use alpha_swarm.Workflow.Samples.{a, b, chain, task, run_of, quiet}
use alpha_swarm.Workflow.Engine.Loop.{Ended}
use alpha_swarm.Workflow.Engine.Execute.{execute}

program : Unit {0}
unfolding execute from_tasks is_utf8 max_checkpoint_file_bytes max_checkpoint_total_bytes text_eq
program = tt

abbrev ended : Ended ℕ
ended = execute quiet 4 (run_of chain) 0

-- Two writes to one path and one to another.
abbrev writes : List ModifiedFile
writes = (a, text "v1") ∷ (b, text "x") ∷ (a, text "v2") ∷ []

absorb_captured-latest_example :
    ((run_of chain).checkpoint_complete ≡ true)
    × (lookup a (absorb_captured writes (run_of chain)).captured_files
        ≡ latest a writes (lookup a (run_of chain).captured_files))
absorb_captured-latest_example =
    absorb_captured-latest writes (run_of chain) a (unfold absorb_captured program in refl)

nothing_captured : IsSound (run_of chain).captured_files
unfolding program
nothing_captured = record { fits = tt; distinct = tt }

absorb_captured-IsSound_example : IsSound (absorb_captured writes (run_of chain)).captured_files
absorb_captured-IsSound_example = absorb_captured-IsSound writes (run_of chain) nothing_captured

abbrev only_a : WorkflowRun
only_a = record (run_of chain) { captured_files = record { path = a; content = text "v1" } ∷ [] }

abbrev nine_paths : List Text
nine_paths =
    text "1"
    ∷ text "2"
    ∷ text "3"
    ∷ text "4"
    ∷ text "5"
    ∷ text "6"
    ∷ text "7"
    ∷ text "8"
    ∷ text "9"
    ∷ []

abbrev all_captured : Text → List CapturedFile
all_captured content = map (λ p. record { path = p; content = content }) nine_paths

abbrev nine_captured : WorkflowRun
nine_captured = record (run_of chain) { captured_files = all_captured (text "x") }

-- Nine captured files that are written again, each with content of the greatest size, are all
-- replaced: together they are past the limit on the total, and the checkpoint counts as complete
-- as before.
over_total :
    (content : Text)
    → is_utf8 content ≡ true
    → length content ≡ max_checkpoint_file_bytes
    → (absorb_captured (map (λ p. (p, content)) nine_paths) nine_captured
        ≡ record nine_captured { captured_files = all_captured content })
      × (max_checkpoint_total_bytes < total_bytes (all_captured content))
unfolding text_eq max_checkpoint_file_bytes max_checkpoint_total_bytes
over_total content valid greatest = (
  absorb_captured_replaces content nine_paths nine_captured valid (omega (arith, greatest)) (
      (
        (text "x", refl),
        (
          (text "x", refl),
          (
            (text "x", refl),
            (
              (text "x", refl),
              (
                (text "x", refl),
                ((text "x", refl), ((text "x", refl), ((text "x", refl), ((text "x", refl), tt)))),
              ),
            ),
          ),
        ),
      )),
  omega (arith, greatest),
)

absorb_captured_bounded_example :
    total_bytes (absorb_captured ((b, text "x") ∷ (text "c", text "y") ∷ []) only_a).captured_files
    ≤ max_checkpoint_total_bytes
absorb_captured_bounded_example =
    absorb_captured_bounded ((b, text "x") ∷ (text "c", text "y") ∷ []) only_a
      (unfold program in (refl, (refl, tt), (refl, tt, tt)))
      (unfold max_checkpoint_total_bytes in omega arith)

doomed_ids-iff-IsDoomed_example :
    (contains (doomed_ids a (run_of chain).steps) b ≡ true) ↔ IsDoomed (run_of chain).steps a b
doomed_ids-iff-IsDoomed_example = doomed_ids-iff-IsDoomed a (run_of chain).steps b

splice_replan-Distinct_example :
    Distinct (step_ids (splice_replan a (task a [] ∷ []) (text "t") (run_of chain)).0.steps)
splice_replan-Distinct_example =
    splice_replan-Distinct a (text "t") (task a [] ∷ []) (run_of chain)
      (unfold program in (refl, (refl, tt))) (refl, tt)
      (unfold program is_prefix decimal in (refl, (refl, tt)))

-- Step `c` does not depend on the failed step `b`.
abbrev diamond : WorkflowRun
diamond = run_of (task a [] ∷ task b (a ∷ []) ∷ task (text "c") (a ∷ []) ∷ [])

abbrev spliced : WorkflowRun
spliced = (splice_replan b (task b [] ∷ []) (text "t") diamond).0

abbrev kept : WorkflowStep
kept = unfold from_task in from_task (task (text "c") (a ∷ []))

splice_replan_no_dangling_example : ¬ IsDoomed diamond.steps b a
splice_replan_no_dangling_example =
    splice_replan_no_dangling b (text "t") (task b [] ∷ []) diamond kept a
      (unfold program is_prefix decimal in refl)
      (unfold program is_prefix decimal in (refl, (refl, (refl, tt))))
      (unfold program splice_replan in there (here refl)) (unfold program in refl)

reset_passed_steps_lem_example :
    Resets
      (run_of chain).steps
      (reset_passed_steps (run_of chain)).0.steps
      (reset_passed_steps (run_of chain)).1
    × (count (λ s. is_passed s.state) (reset_passed_steps (run_of chain)).0.steps ≡ 0)
    × ((reset_passed_steps (run_of chain)).0.captured_files ≡ [])
    × ((reset_passed_steps (run_of chain)).0.checkpoint_complete ≡ true)
reset_passed_steps_lem_example = reset_passed_steps_lem (run_of chain)

terminal_absorbs_example : WorkflowState.failed ≡ WorkflowState.failed
terminal_absorbs_example =
    terminal_absorbs WorkflowState.failed WorkflowState.failed (unfold is_terminal in refl) start

-- The first step of the chain has passed, so the second is dispatched.
abbrev halfway : WorkflowRun
halfway = mark_step a StepState.passed none (run_of chain)

ready_agent_tasks_lem_example : (s : WorkflowStep) × IsDue halfway s × (task b (a ∷ []) ≡ s.task)
unfolding program mark_step
ready_agent_tasks_lem_example =
    ready_agent_tasks_lem halfway (task b (a ∷ []))
      (unfold program mark_step ready_agent_tasks in here refl)
