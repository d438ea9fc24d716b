-- ===== src/Workflow/Model/Checkpoint/Limits.antt =====
-- What the checkpoint can hold: valid UTF-8 up to the size of one file, one entry for a path,
-- and the limit on the total for files that were not captured before.
use alpha_swarm.Prelude.{
  ◌+◌, ◌≤◌, Text, text_eq, text_eq_iff, List, [], ◌∷◌, ◌++◌, ◌≡◌, some, none, true, false, arith,
  ◌⊎◌, length, is_utf8, All, Bool-cases, inl, inr, ltb, refl, ap, ◌∙◌, map,
}
use alpha_swarm.Orchestrator.Runner.{ModifiedFile}
use alpha_swarm.Workflow.Model.Types.{WorkflowRun, CapturedFile}
use alpha_swarm.Workflow.Model.Checkpoint.{
  lookup, replace, total_bytes, absorb_file, absorb_captured, max_checkpoint_file_bytes,
  max_checkpoint_total_bytes,
}

abbrev FileFits : CapturedFile → Type 0
FileFits f = (length f.content ≤ max_checkpoint_file_bytes) × (is_utf8 f.content ≡ true)

abbrev Distinct : List CapturedFile → Type 0
Distinct [] = Unit
Distinct (f ∷ fs) = (lookup f.path fs ≡ none) × Distinct fs

pub record IsSound (files : List CapturedFile) : Type 0 where
  pub fits : All FileFits files
  pub distinct : Distinct files

All-replace :
    (p c : Text) (fs : List CapturedFile)
    → length c ≤ max_checkpoint_file_bytes
    → is_utf8 c ≡ true
    → All FileFits fs
    → All FileFits (replace p c fs)
All-replace p c [] h u k = tt
All-replace p c (f ∷ fs) h u k = elim (Bool-cases (text_eq f.path p)) [
  | inl e ↦ rw e ((h, u), k.1)
  | inr e ↦ rw e (k.0, All-replace p c fs h u k.1)
]

lookup-none-replace :
    (p q c : Text) (fs : List CapturedFile) → lookup q fs ≡ none → lookup q (replace p c fs) ≡ none
lookup-none-replace p q c [] h = h
lookup-none-replace p q c (f ∷ fs) h = ground (arith, lookup-none-replace p q c fs)

Distinct-replace : (p c : Text) (fs : List CapturedFile) → Distinct fs → Distinct (replace p c fs)
Distinct-replace p c [] h = tt
Distinct-replace p c (f ∷ fs) h = elim (Bool-cases (text_eq f.path p)) [
  | inl e ↦ rw e h
  | inr e ↦ rw e (lookup-none-replace p f.path c fs h.0, Distinct-replace p c fs h.1)
]

All-snoc :
    (f : CapturedFile) (fs : List CapturedFile)
    → FileFits f
    → All FileFits fs
    → All FileFits (fs ++ f ∷ [])
All-snoc f [] h k = (h, tt)
All-snoc f (g ∷ fs) h k = (k.0, All-snoc f fs h k.1)

lookup-none-snoc :
    (f : CapturedFile) (q : Text) (fs : List CapturedFile)
    → lookup q fs ≡ none
    → text_eq f.path q ≡ false
    → lookup q (fs ++ f ∷ []) ≡ none
lookup-none-snoc f q [] h e = rw e
lookup-none-snoc f q (g ∷ fs) h e = ground (arith, lookup-none-snoc f q fs)

Distinct-snoc :
    (f : CapturedFile) (fs : List CapturedFile)
    → lookup f.path fs ≡ none
    → Distinct fs
    → Distinct (fs ++ f ∷ [])
Distinct-snoc f [] h k = (h, tt)
Distinct-snoc f (g ∷ fs) h k = (
  lookup-none-snoc f g.path fs k.0
      (ground (arith, text_eq_iff g.path f.path, text_eq_iff f.path g.path)),
  Distinct-snoc f fs (ground arith) k.1,
)

-- The three things that one file does to the captured list.
absorb_file_cases :
    (wf : WorkflowRun) (p c : Text)
    → ((absorb_file wf (p, c)).captured_files ≡ wf.captured_files)
      ⊎ (length c ≤ max_checkpoint_file_bytes)
        × (is_utf8 c ≡ true)
        × ((absorb_file wf (p, c)).captured_files ≡ replace p c wf.captured_files)
      ⊎ (length c ≤ max_checkpoint_file_bytes)
        × (is_utf8 c ≡ true)
        × (lookup p wf.captured_files ≡ none)
        × ((absorb_file wf (p, c)).captured_files
            ≡ wf.captured_files ++ record { path = p; content = c } ∷ [])
unfolding absorb_file
absorb_file_cases wf p c = ground arith

absorb_file-IsSound :
    (wf : WorkflowRun) (p c : Text)
    → IsSound wf.captured_files
    → IsSound (absorb_file wf (p, c)).captured_files
absorb_file-IsSound wf p c h = elim (absorb_file_cases wf p c) [
  | inl same ↦ rw same h
  | inr (inl (fits, valid, e)) ↦ rw e (record {
    fits = All-replace p c wf.captured_files fits valid h.fits;
    distinct = Distinct-replace p c wf.captured_files h.distinct;
  })
  | inr (inr (fits, valid, absent, e)) ↦ rw e (record {
    fits = All-snoc (record { path = p; content = c }) wf.captured_files (fits, valid) h.fits;
    distinct = Distinct-snoc (record { path = p; content = c }) wf.captured_files absent h.distinct;
  })
]

-- Absorbing any round, binary and oversized files included, keeps every captured content valid
-- UTF-8 of at most `max_checkpoint_file_bytes`, and the captured paths distinct.
pub absorb_captured-IsSound :
    (ms : List ModifiedFile) (wf : WorkflowRun)
    → IsSound wf.captured_files
    → IsSound (absorb_captured ms wf).captured_files
unfolding absorb_captured
absorb_captured-IsSound [] wf h = h
absorb_captured-IsSound ((p, c) ∷ ms) wf h =
    absorb_captured-IsSound ms (absorb_file wf (p, c)) (absorb_file-IsSound wf p c h)

-- The files of a round have different paths, and none is captured.
abbrev pub AreNew : List ModifiedFile → List CapturedFile → Type 0
AreNew [] files = Unit
AreNew ((p, c) ∷ ms) files =
    (lookup p files ≡ none) × All (λ (q, d). text_eq p q ≡ false) ms × AreNew ms files

AreNew-snoc :
    (ms : List ModifiedFile) (f : CapturedFile) (files : List CapturedFile)
    → All (λ (q, d). text_eq f.path q ≡ false) ms
    → AreNew ms files
    → AreNew ms (files ++ f ∷ [])
AreNew-snoc [] f files h new = tt
AreNew-snoc ((p, c) ∷ ms) f files (other, others) (absent, apart, new) =
    (lookup-none-snoc f p files absent other, apart, AreNew-snoc ms f files others new)

total_bytes-snoc :
    (f : CapturedFile) (files : List CapturedFile)
    → total_bytes (files ++ f ∷ []) ≡ total_bytes files + length f.content
total_bytes-snoc f [] = omega arith
total_bytes-snoc f (g ∷ files) = omega (arith, total_bytes-snoc f files)

absorb_new :
    (wf : WorkflowRun) (p c : Text)
    → lookup p wf.captured_files ≡ none
    → ((absorb_file wf (p, c)).captured_files ≡ wf.captured_files)
      ⊎ (total_bytes wf.captured_files + length c ≤ max_checkpoint_total_bytes)
        × ((absorb_file wf (p, c)).captured_files
            ≡ wf.captured_files ++ record { path = p; content = c } ∷ [])
unfolding absorb_file
absorb_new wf p c h = ground arith

-- Absorbing a round, binary and oversized files included, keeps the captured contents within
-- `max_checkpoint_total_bytes` together, when they were before it, the files of the round have
-- different paths, and none of these is captured already.
pub absorb_captured_bounded :
    (ms : List ModifiedFile) (wf : WorkflowRun)
    → AreNew ms wf.captured_files
    → total_bytes wf.captured_files ≤ max_checkpoint_total_bytes
    → total_bytes (absorb_captured ms wf).captured_files ≤ max_checkpoint_total_bytes
unfolding absorb_captured
absorb_captured_bounded [] wf new h = h
absorb_captured_bounded ((p, c) ∷ ms) wf (absent, apart, new) h = elim (absorb_new wf p c absent) [
  | inl same ↦ absorb_captured_bounded ms (absorb_file wf (p, c)) (rw same new) (rw same h)
  | inr (room, added) ↦
      absorb_captured_bounded ms (absorb_file wf (p, c))
        (rw added (AreNew-snoc ms (record { path = p; content = c }) wf.captured_files apart new))
        (rw (added, total_bytes-snoc (record { path = p; content = c }) wf.captured_files) room)
]

replaced :
    (wf : WorkflowRun) (p c : Text) {old : Text}
    → is_utf8 c ≡ true
    → length c ≤ max_checkpoint_file_bytes
    → lookup p wf.captured_files ≡ some old
    → absorb_file wf (p, c) ≡ record wf { captured_files = replace p c wf.captured_files }
unfolding absorb_file
replaced wf p c valid fits found =
    let small : ltb max_checkpoint_file_bytes (length c) ≡ false = ground (arith, fits) in
    rw (valid, small, found) refl

-- One content written to several paths, each of them captured.
abbrev pub replace_all : Text → List Text → List CapturedFile → List CapturedFile
replace_all c [] files = files
replace_all c (p ∷ ps) files = replace_all c ps (replace p c files)

abbrev pub AreCaptured : Text → List Text → List CapturedFile → Type 0
AreCaptured c [] files = Unit
AreCaptured c (p ∷ ps) files =
    ((old : Text) × (lookup p files ≡ some old)) × AreCaptured c ps (replace p c files)

-- Writes to captured paths are never refused for the total.
pub absorb_captured_replaces :
    (c : Text) (ps : List Text) (wf : WorkflowRun)
    → is_utf8 c ≡ true
    → length c ≤ max_checkpoint_file_bytes
    → AreCaptured c ps wf.captured_files
    → absorb_captured (map (λ p. (p, c)) ps) wf
      ≡ record wf { captured_files = replace_all c ps wf.captured_files }
unfolding absorb_captured
absorb_captured_replaces c [] wf valid fits h = refl
absorb_captured_replaces c (p ∷ ps) wf valid fits ((old, found), h) =
    ap (absorb_captured (map (λ p. (p, c)) ps)) (replaced wf p c valid fits found)
    ∙ absorb_captured_replaces c ps (record wf { captured_files = replace p c wf.captured_files })
        valid fits h
