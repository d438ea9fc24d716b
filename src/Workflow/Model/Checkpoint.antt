-- ===== src/Workflow/Model/Checkpoint.antt =====
-- crates/workflow/src/model.rs, `absorb_captured` and `reset_passed_steps`: the file outputs that
-- a run carries so that a resumed run need not repeat its passed steps.
pub mod Latest
pub mod Limits
pub mod Reset
use alpha_swarm.Prelude.{
  ℕ, ◌+◌, Text, text_eq, List, [], ◌∷◌, ◌++◌, map, Option, none, some, Bool, true, false, ltb,
  if◌then◌else◌, length, count, is_utf8, foldl,
}
use alpha_swarm.Orchestrator.Runner.{ModifiedFile}
use alpha_swarm.Workflow.State.{StepState, is_passed}
use alpha_swarm.Workflow.Model.Types.{WorkflowStep, WorkflowRun, CapturedFile}

-- Numerals of this size stay shut, so that the tactics do not count them.
unfoldable pub max_checkpoint_file_bytes : ℕ
max_checkpoint_file_bytes = 262144

unfoldable pub max_checkpoint_total_bytes : ℕ
max_checkpoint_total_bytes = 2097152

-- `self.captured_files.iter().map(|f| f.content.len()).sum()`
abbrev pub total_bytes : List CapturedFile → ℕ
total_bytes [] = 0
total_bytes (f ∷ fs) = length f.content + total_bytes fs

-- `self.captured_files.iter().find(|f| &f.path == path)`
abbrev pub lookup : Text → List CapturedFile → Option Text
lookup path [] = none
lookup path (f ∷ fs) = if text_eq f.path path then some f.content else lookup path fs

abbrev pub replace : Text → Text → List CapturedFile → List CapturedFile
replace path content [] = []
replace path content (f ∷ fs) =
    if text_eq f.path path then record f { content = content } ∷ fs else f ∷ replace path content fs

abbrev incomplete : WorkflowRun → WorkflowRun
incomplete wf = record wf { checkpoint_complete = false }

-- The body of the loop in `absorb_captured`.
unfoldable pub absorb_file : WorkflowRun → ModifiedFile → WorkflowRun
absorb_file wf (path, bytes) =
    if is_utf8 bytes
    then (if ltb max_checkpoint_file_bytes (length bytes)
        then incomplete wf
        else elim (lookup path wf.captured_files) [
          | some existing ↦ record wf { captured_files = replace path bytes wf.captured_files }
          | none ↦
              if ltb max_checkpoint_total_bytes (total_bytes wf.captured_files + length bytes)
              then incomplete wf
              else record wf {
                captured_files = wf.captured_files ++ record { path = path; content = bytes } ∷ [];
              }
        ])
    else incomplete wf

unfoldable pub absorb_captured : List ModifiedFile → WorkflowRun → WorkflowRun
unfolding absorb_file
absorb_captured [] wf = wf
absorb_captured (m ∷ ms) wf = absorb_captured ms (absorb_file wf m)

pub reset_passed : WorkflowStep → WorkflowStep
reset_passed s = if is_passed s.state then record s { state = StepState.pending } else s

-- The run with its passed steps pending again, and how many there were.
unfoldable pub reset_passed_steps : WorkflowRun → WorkflowRun × ℕ
unfolding reset_passed
reset_passed_steps wf = (
  record wf { steps = map reset_passed wf.steps; captured_files = []; checkpoint_complete = true },
  count (λ s. is_passed s.state) wf.steps,
)
