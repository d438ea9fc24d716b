-- ===== src/Workflow/Model/Checkpoint/Latest.antt =====
-- A complete checkpoint reproduces the last write to every path.
use alpha_swarm.Prelude.{
  Text, text_eq, text_eq_iff, List, [], ◌∷◌, ◌++◌, Option, none, some, ◌≡◌, ◌≢◌, ◌∙◌, ap, refl,
  true, arith, if◌then◌else◌,
}
use alpha_swarm.Orchestrator.Runner.{ModifiedFile}
use alpha_swarm.Workflow.Model.Types.{WorkflowRun, CapturedFile}
use alpha_swarm.Workflow.Model.Checkpoint.{lookup, replace, absorb_file, absorb_captured}

-- What a file system that starts with `before` holds at `path` after the writes, in order.
abbrev pub latest : Text → List ModifiedFile → Option Text → Option Text
latest path [] before = before
latest path ((p, content) ∷ writes) before =
    latest path writes (if text_eq p path then some content else before)

lookup-replace :
    (p q content : Text) (fs : List CapturedFile)
    → lookup p fs ≢ none
    → lookup q (replace p content fs) ≡ (if text_eq p q then some content else lookup q fs)
lookup-replace p q content [] h = ground arith
lookup-replace p q content (f ∷ fs) h = ground (
  arith,
  text_eq_iff f.path p,
  text_eq_iff f.path q,
  text_eq_iff p q,
  lookup-replace p q content fs,
)

lookup-append :
    (p q content : Text) (fs : List CapturedFile)
    → lookup p fs ≡ none
    → lookup q (fs ++ record { path = p; content = content } ∷ [])
      ≡ (if text_eq p q then some content else lookup q fs)
lookup-append p q content [] h = ground arith
lookup-append p q content (f ∷ fs) h = ground (
  arith,
  text_eq_iff f.path p,
  text_eq_iff f.path q,
  text_eq_iff p q,
  lookup-append p q content fs,
)

complete_before :
    (wf : WorkflowRun) (m : ModifiedFile)
    → (absorb_file wf m).checkpoint_complete ≡ true
    → wf.checkpoint_complete ≡ true
unfolding absorb_file
complete_before wf (p, c) h = ground arith

lookup-absorb_file :
    (wf : WorkflowRun) (p content q : Text)
    → (absorb_file wf (p, content)).checkpoint_complete ≡ true
    → lookup q (absorb_file wf (p, content)).captured_files
      ≡ (if text_eq p q then some content else lookup q wf.captured_files)
unfolding absorb_file
lookup-absorb_file wf p content q h = ground (
  arith,
  lookup-replace p q content wf.captured_files,
  lookup-append p q content wf.captured_files,
)

complete_before_all :
    (ms : List ModifiedFile) (wf : WorkflowRun)
    → (absorb_captured ms wf).checkpoint_complete ≡ true
    → wf.checkpoint_complete ≡ true
unfolding absorb_captured
complete_before_all [] wf h = h
complete_before_all (m ∷ ms) wf h =
    complete_before wf m (complete_before_all ms (absorb_file wf m) h)

lookup-absorb_captured :
    (ms : List ModifiedFile) (wf : WorkflowRun) (q : Text)
    → (absorb_captured ms wf).checkpoint_complete ≡ true
    → lookup q (absorb_captured ms wf).captured_files ≡ latest q ms (lookup q wf.captured_files)
unfolding absorb_captured
lookup-absorb_captured [] wf q h = refl
lookup-absorb_captured ((p, content) ∷ ms) wf q h =
    lookup-absorb_captured ms (absorb_file wf (p, content)) q h
    ∙ ap (latest q ms) (lookup-absorb_file wf p content q (complete_before_all ms _ h))

-- If the checkpoint is still complete after a round was absorbed, it was complete before, and it
-- holds at every path the last content that the round wrote there, or, where the round wrote
-- nothing, what it held before.
pub absorb_captured-latest :
    (ms : List ModifiedFile) (wf : WorkflowRun) (q : Text)
    → (absorb_captured ms wf).checkpoint_complete ≡ true
    → (wf.checkpoint_complete ≡ true)
      × (lookup q (absorb_captured ms wf).captured_files ≡ latest q ms (lookup q wf.captured_files))
absorb_captured-latest ms wf q h = (complete_before_all ms wf h, lookup-absorb_captured ms wf q h)
