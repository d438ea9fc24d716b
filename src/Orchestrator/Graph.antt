-- ===== src/Orchestrator/Graph.antt =====
-- crates/orchestrator/src/graph.rs: an edit, a new file or a document by one prompt, with a check and a
-- bounded number of fixes.
pub mod Prompts
pub mod Fix
pub mod Doc
pub mod Checked
mod Witnesses
use alpha_swarm.Prelude.{
  ℕ, zero, suc, ◌+◌, ◌-◌, ◌*◌, Text, text, List, [], ◌∷◌, ◌++◌, any, Option, none, some, Bool, true,
  false, not, ◌&&◌, if◌then◌else◌, ends_with, ltb, leb, lines, length, drop, is_continuation,
}
use alpha_swarm.EditParser.{FileEdit, Parse, parsed, failed, panics, out_of_fuel, parse_edits}
use alpha_swarm.CodeUtils.{fuzzy_replace}
use alpha_swarm.Inference.{InferenceResponse}

-- `Result` with a panic as a third outcome.
pub data Run {ℓ} (A : Type ℓ) : Type ℓ where
  returned : A → Run A
  bailed : (error : Text) → Run A
  panicked : Run A

-- The executor's settings, with what it calls: the workspace's files, a shell that gives the success
-- and the output (stderr before stdout), the nearest package.json above a file, and the router.
pub record GraphExecutor (W : Type 0) : Type 0 where
  pub crate_name : Option Text
  pub max_retries : ℕ
  pub load : Text → W → Option Text
  pub store : Text → Text → W → Bool × W
  pub remove : Text → W → W
  pub package_dir : Text → Option Text
  pub shell : Text → W → Option (Bool × Text) × W
  pub call_llm : Text → W → Option InferenceResponse × W

pub record GraphResult : Type 0 where
  pub response : InferenceResponse
  pub edits : List FileEdit
  pub escalated : Bool

abbrev frontend_extensions : List Text
frontend_extensions =
    text ".tsx"
    ∷ text ".ts"
    ∷ text ".jsx"
    ∷ text ".js"
    ∷ text ".css"
    ∷ text ".scss"
    ∷ text ".html"
    ∷ []

abbrev first_dir : (Text → Option Text) → List Text → Option Text
first_dir package_dir [] = none
first_dir package_dir (f ∷ files) = elim (package_dir f) [
  | some dir ↦ some dir
  | none ↦ first_dir package_dir files
]

abbrev pub frontend_check : Option Text → Text
frontend_check none = text "echo OK"
frontend_check (some dir) =
    text "cd " ++ (dir ++ text " && pnpm check 2>&1 || pnpm exec oxlint src/ 2>&1")

abbrev pub cargo_check : Option Text → Text
cargo_check none = text "cargo check"
cargo_check (some name) = text "cargo check -p " ++ name

unfoldable pub doc_rewrite_truncated : Text → Text → Bool
unfolding lines
doc_rewrite_truncated original rewritten =
    let o = length (lines original) in
    let n = length (lines rewritten) in leb 20 o && ltb (n * 100) (o * 60)

abbrev pub max_file_context : ℕ
max_file_context = 12000

abbrev pub max_error_context : ℕ
max_error_context = 2000

-- A slice from inside a character panics.
unfoldable pub from_boundary : Text → Run Text
from_boundary [] = bailed []
from_boundary (b ∷ t) = if is_continuation b then panicked else bailed (b ∷ t)

-- The end of the output as an error.
unfoldable pub check_failed : Text → Run Text
unfolding from_boundary
check_failed combined = from_boundary (drop (length combined - max_error_context) combined)

unfoldable pub check_outcome : Option (Bool × Text) → Run Text
unfolding check_failed
check_outcome none = bailed (text "Failed to run check")
check_outcome (some (true, combined)) = returned (text "OK")
check_outcome (some (false, combined)) = check_failed combined

-- `unwrap_or_default` of a parse; `none` is its panic.
abbrev pub parsed_edits : Parse (List FileEdit) → Option (List FileEdit)
parsed_edits (parsed edits) = some edits
parsed_edits (failed error) = some []
parsed_edits panics = none
parsed_edits out_of_fuel = none

abbrev pub and_then {ℓ} : {W : Type 0} {A B : Type ℓ} → Run A × W → (A → W → Run B × W) → Run B × W
and_then (returned a, w) k = k a w
and_then (bailed error, w) k = (bailed error, w)
and_then (panicked, w) k = (panicked, w)

module _ {W : Type 0} (g : GraphExecutor W) where
  unfoldable pub detect_check_command : List Text → Text
  unfolding ends_with
  detect_check_command files =
      let has_frontend = any (λ f. any (ends_with f) frontend_extensions) files in
      let has_rust = any (λ f. ends_with f (text ".rs")) files in
      if has_frontend && not has_rust
      then frontend_check (first_dir g.package_dir files)
      else if has_rust
      then cargo_check g.crate_name
      else text "echo OK"

  unfoldable pub run_check : List Text → W → Run Text × W
  unfolding detect_check_command check_outcome
  run_check files w =
      let (output, w') = g.shell (detect_check_command files) w in (check_outcome output, w')

  abbrev written : Text → Bool × W → Run (Unit {0}) × W
  written path (true, w) = (returned tt, w)
  written path (false, w) = (bailed (text "Failed to write " ++ path), w)

  abbrev replaced : Text → Option Text → W → Run (Unit {0}) × W
  replaced path none w = (bailed (text "edit OLD block not found in " ++ path), w)
  replaced path (some updated) w = written path (g.store path updated w)

  abbrev edited : Text → Text → Text → Option Text → W → Run (Unit {0}) × W
  unfolding fuzzy_replace
  edited path old new none w = (bailed (text "Failed to read " ++ path), w)
  edited path old new (some content) w = replaced path (fuzzy_replace content old new) w

  unfoldable pub apply_edit : FileEdit → W → Run (Unit {0}) × W
  unfolding edited
  apply_edit (FileEdit.edit path old new) w = edited path old new (g.load path w) w
  apply_edit (FileEdit.create path content) w = written path (g.store path content w)
  apply_edit (FileEdit.delete path) w = (returned tt, g.remove path w)

  unfoldable pub apply_edits : List FileEdit → W → Run (Unit {0}) × W
  unfolding apply_edit
  apply_edits [] w = (returned tt, w)
  apply_edits (e ∷ edits) w = and_then (apply_edit e w) (λ done w'. apply_edits edits w')

  abbrev applied : Option (List FileEdit) → W → Run (List FileEdit) × W
  unfolding apply_edits
  applied none w = (panicked, w)
  applied (some edits) w = and_then (apply_edits edits w) (λ done w'. (returned edits, w'))

  unfoldable pub apply_response : Text → W → Run (List FileEdit) × W
  unfolding applied parse_edits
  apply_response response w = applied (parsed_edits (parse_edits response)) w
