-- ===== src/CodeUtils/Replace.antt =====
-- What `fuzzy_replace` of crates/agent-core/src/code_utils.rs gives.
use alpha_swarm.Prelude.{
  ℕ, Text, List, [], ◌∷◌, ◌++◌, map, Option, none, some, true, false, ◌≡◌, ◌⊎◌, refl, sym, subst,
  arith, Bool-cases, inl, inr, length, lines, join, trim, text_contains,
}
use alpha_swarm.EditParser.{newline}
use alpha_swarm.CodeUtils.{
  collapsed, unix_lines, replace, replace_trimmed, put_lines, located, fuzzy_replace,
}
use alpha_swarm.CodeUtils.Window.{IsMatch, IsLocated, located-IsLocated}

abbrev pub IsReplaced : List Text → List Text → List Text → Option Text → Type 0
IsReplaced content_lines old_lines new_lines none =
    (before window after : List Text) → IsMatch old_lines content_lines before window after → ⊥
IsReplaced content_lines old_lines new_lines (some result) =
    (before : List Text) × (window : List Text) × (after : List Text) × IsMatch old_lines
      content_lines before window after
    × (result ≡ join newline (before ++ (new_lines ++ after)))

put_lines-IsReplaced :
    (content_lines old_lines new_lines : List Text) (o : Option ℕ)
    → IsLocated old_lines content_lines o
    → IsReplaced content_lines old_lines new_lines
        (put_lines content_lines new_lines (length old_lines) o)
unfolding put_lines
put_lines-IsReplaced content_lines old_lines new_lines none h = h
put_lines-IsReplaced content_lines old_lines new_lines (some n) (before, window, after, m, e, f) =
    (before, window, after, m, rw (e, f) refl)

lines_nonempty : (b : ℕ) (t : Text) → lines (b ∷ t) ≡ [] → ⊥
unfolding lines
lines_nonempty b [] h = ground arith
lines_nonempty b (c ∷ t) h = ground (arith, lines_nonempty c t)

some_line : (ls : List Text) → (ls ≡ [] → ⊥) → (o : Text) × (os : List Text) × (ls ≡ o ∷ os)
some_line [] h = elim (h refl) [ ]
some_line (o ∷ os) h = (o, os, refl)

-- Of a file with unified line ends, and of the old and the new text, trimmed.
abbrev pub Outcome : Text → Text → Text → Option Text → Type 0
Outcome content old new result =
    ((old ≡ []) × (result ≡ none))
    ⊎ (((text_contains content old ≡ true) × (result ≡ some (replace old new content)))
        ⊎ ((text_contains content old ≡ false)
            × IsReplaced (lines content) (map collapsed (lines old)) (lines new) result))

by_lines :
    (content_lines : List Text) (b : ℕ) (t : Text) (new_lines : List Text)
    → IsReplaced content_lines (map collapsed (lines (b ∷ t))) new_lines (
        put_lines content_lines new_lines
          (length (map collapsed (lines (b ∷ t))))
          (located (map collapsed (lines (b ∷ t))) content_lines))
by_lines content_lines b t new_lines =
    let (o, os, e) = some_line (lines (b ∷ t)) (lines_nonempty b t) in
    let old_lines = map collapsed (lines (b ∷ t)) in
    put_lines-IsReplaced content_lines old_lines new_lines (located old_lines content_lines) (
      subst
        (λ ls.
          IsLocated (map collapsed ls) content_lines (located (map collapsed ls) content_lines))
        (sym e) (located-IsLocated (collapsed o) (map collapsed os) content_lines))

replace_trimmed-Outcome :
    (content old new : Text) → Outcome content old new (replace_trimmed content old new)
unfolding replace_trimmed
replace_trimmed-Outcome content [] new = inl (refl, refl)
replace_trimmed-Outcome content (b ∷ old) new =
    elim (Bool-cases (text_contains content (b ∷ old))) [
      | inl held ↦ inr (inl (held, rw held refl))
      | inr missing ↦ inr (inr (missing, rw missing (by_lines (lines content) b old (lines new))))
    ]

-- Line ends are unified, and the old and the new text trimmed. Then either nothing is left of the old
-- text, and there is no result; or the file holds it, and every occurrence is replaced; or it does not.
-- Then the result is the file's lines with the new lines for some lines that are the old ones up to
-- their white space, and there is none only when the file has no such lines.
pub fuzzy_replace-Outcome :
    (content old new : Text)
    → Outcome
        (unix_lines content)
        (trim (unix_lines old))
        (trim (unix_lines new))
        (fuzzy_replace content old new)
unfolding fuzzy_replace
fuzzy_replace-Outcome content old new =
    replace_trimmed-Outcome (unix_lines content) (trim (unix_lines old)) (trim (unix_lines new))
