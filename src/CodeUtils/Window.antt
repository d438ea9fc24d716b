-- ===== src/CodeUtils/Window.antt =====
-- Where crates/agent-core/src/code_utils.rs finds the old lines among the lines of a file.
use alpha_swarm.Prelude.{
  ℕ, suc, ◌+◌, Text, text_eq_iff, List, [], ◌∷◌, ◌++◌, map, Option, none, some, true, false, ◌&&◌,
  ◌≡◌, refl, sym, ◌∙◌, ap, subst, arith, Bool-cases, not_both, inl, inr, if◌then◌else◌, take,
  length,
}
use alpha_swarm.CodeUtils.{
  collapsed, plus_one, line_position, fits, head_fits, window_position, skip, located,
}

-- The lines as what is before a match, the match, and what is after it.
abbrev pub IsMatch : List Text → List Text → List Text → List Text → List Text → Type 0
IsMatch old_lines content_lines before window after =
    (content_lines ≡ before ++ (window ++ after)) × (map collapsed window ≡ old_lines)

abbrev pub IsLocated : List Text → List Text → Option ℕ → Type 0
IsLocated old_lines content_lines none =
    (before window after : List Text) → IsMatch old_lines content_lines before window after → ⊥
IsLocated old_lines content_lines (some n) =
    (before : List Text) × (window : List Text) × (after : List Text) × IsMatch old_lines
      content_lines before window after
    × (take n content_lines ≡ before)
    × (skip (n + length old_lines) content_lines ≡ after)

fits_split :
    (old_lines ls : List Text)
    → fits old_lines ls ≡ true
    → (window : List Text) × (after : List Text) × (ls ≡ window ++ after)
      × (map collapsed window ≡ old_lines)
      × (skip (length old_lines) ls ≡ after)
unfolding fits
fits_split [] ls h = ([], ls, refl, refl, refl)
fits_split (o ∷ os) [] h = cc
fits_split (o ∷ os) (l ∷ ls) h =
    let (window, after, e, f, g) = fits_split os ls (ground arith) in
    let same : collapsed l ≡ o = ground (arith, text_eq_iff (collapsed l) o) in
    (l ∷ window, after, ap (λ r. l ∷ r) e, cc, g)

fits_joined :
    (old_lines window after : List Text)
    → map collapsed window ≡ old_lines
    → fits old_lines (window ++ after) ≡ true
unfolding fits
fits_joined [] window after h = refl
fits_joined (o ∷ os) [] after h = cc
fits_joined (o ∷ os) (l ∷ window) after h =
    let same : collapsed l ≡ o = cc in
    let rest : map collapsed window ≡ os = cc in
    ground (arith, (text_eq_iff (collapsed l) o).1 same, fits_joined os window after rest)

fits_head :
    (old_lines : List Text) (l : Text) (ls : List Text)
    → fits old_lines (l ∷ ls) ≡ true
    → head_fits old_lines l ≡ true
unfolding fits head_fits
fits_head [] l ls h = refl
fits_head (o ∷ os) l ls h = ground arith

here-IsLocated :
    (old_lines : List Text) (ls : List Text)
    → fits old_lines ls ≡ true
    → IsLocated old_lines ls (some 0)
here-IsLocated old_lines ls h =
    let (window, after, e, f, g) = fits_split old_lines ls h in
    let same : 0 + length old_lines ≡ length old_lines = omega arith in
    ([], window, after, (e, f), refl, ap (λ n. skip n ls) same ∙ g)

later-IsLocated :
    (old_lines : List Text) (l : Text) (ls : List Text) (o : Option ℕ)
    → fits old_lines (l ∷ ls) ≡ false
    → IsLocated old_lines ls o
    → IsLocated old_lines (l ∷ ls) (plus_one o)
later-IsLocated old_lines l ls none h k = λ before window after m. at before window after m.0 m.1
  where
    at :
        (before window after : List Text)
        → l ∷ ls ≡ before ++ (window ++ after)
        → map collapsed window ≡ old_lines
        → ⊥
    at [] window after e f =
        not_both (fits old_lines (l ∷ ls))
          (subst (λ t. fits old_lines t ≡ true) (sym e) (fits_joined old_lines window after f)) h
    at (b ∷ before) window after e f = k before window after (cc, f)
later-IsLocated old_lines l ls (some n) h (before, window, after, (e, f), g, s) =
    let same : suc n + length old_lines ≡ suc (n + length old_lines) = omega arith in
    (
      l ∷ before,
      window,
      after,
      (ap (λ r. l ∷ r) e, f),
      ap (λ r. l ∷ r) g,
      ap (λ k. skip k (l ∷ ls)) same ∙ s,
    )

no_lines :
    (o : Text) (os before window after : List Text)
    → [] ≡ before ++ (window ++ after)
    → map collapsed window ≡ o ∷ os
    → ⊥
no_lines o os [] [] after e f = cc
no_lines o os [] (w ∷ window) after e f = cc
no_lines o os (b ∷ before) window after e f = cc

window_position-IsLocated :
    (o : Text) (os ls : List Text) → IsLocated (o ∷ os) ls (window_position (o ∷ os) ls)
unfolding window_position
window_position-IsLocated o os [] =
    λ before window after m. no_lines o os before window after m.0 m.1
window_position-IsLocated o os (l ∷ ls) = elim (Bool-cases (fits (o ∷ os) (l ∷ ls))) [
  | inl fit ↦
      subst (IsLocated (o ∷ os) (l ∷ ls)) (is_here fit) (here-IsLocated (o ∷ os) (l ∷ ls) fit)
  | inr misfit ↦ subst (IsLocated (o ∷ os) (l ∷ ls)) (not_here misfit) (
      later-IsLocated (o ∷ os) l ls (window_position (o ∷ os) ls) misfit
        (window_position-IsLocated o os ls))
]
  where
    is_here :
        fits (o ∷ os) (l ∷ ls) ≡ true
        → some 0 ≡ (
            if head_fits (o ∷ os) l && fits (o ∷ os) (l ∷ ls)
            then some 0
            else plus_one (window_position (o ∷ os) ls))
    is_here fit = ground (arith, fits_head (o ∷ os) l ls fit)

    not_here :
        fits (o ∷ os) (l ∷ ls) ≡ false
        → plus_one (window_position (o ∷ os) ls) ≡ (
            if head_fits (o ∷ os) l && fits (o ∷ os) (l ∷ ls)
            then some 0
            else plus_one (window_position (o ∷ os) ls))
    not_here misfit = ground arith

-- One old line is found as a window of one line is.
line_position_eq : (o : Text) (ls : List Text) → line_position o ls ≡ window_position (o ∷ []) ls
unfolding line_position window_position head_fits fits
line_position_eq o [] = refl
line_position_eq o (l ∷ ls) = ground (arith, line_position_eq o ls)

pub located-IsLocated : (o : Text) (os ls : List Text) → IsLocated (o ∷ os) ls (located (o ∷ os) ls)
unfolding located
located-IsLocated o [] ls =
    subst (IsLocated (o ∷ []) ls) (sym (line_position_eq o ls)) (window_position-IsLocated o [] ls)
located-IsLocated o (p ∷ os) ls = window_position-IsLocated o (p ∷ os) ls
