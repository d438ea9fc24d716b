-- ===== src/Prelude/Slices/Trim.antt =====
-- What trimming does to a text that is put together from parts.
use mathlib.Core.Path.{◌≡◌, refl, sym, ◌∙◌, ap, subst}
use Prim.Native.Nat.{ℕ}
use mathlib.Core.Logic.{inl, inr}
use mathlib.Core.Bool.{Bool, true, false}
use mathlib.Core.List.{List, [], ◌∷◌, ◌++◌, append_assoc}
use native.Mathlib.Omega.{arith}
use alpha_swarm.Prelude.Tests.{Bool-cases, if◌then◌else◌}
use alpha_swarm.Prelude.Texts.{Text, text_eq}
use alpha_swarm.Prelude.Slices.{
  is_continuation, joins, onto_head, chars, concat, is_space, drop_while, drop_end, trim_matches,
  trim,
}

-- The text does not begin inside a character.
abbrev pub StartsChar : Text → Type 0
StartsChar [] = Unit
StartsChar (b ∷ t) = is_continuation b ≡ false

append_assoc-concat : (xs ys : List Text) → concat (xs ++ ys) ≡ concat xs ++ concat ys
append_assoc-concat [] ys = refl
append_assoc-concat (x ∷ xs) ys =
    ap (λ r. x ++ r) (append_assoc-concat xs ys) ∙ sym (append_assoc x (concat xs) (concat ys))

abbrev onto_chars : ℕ → List Text → List Text
onto_chars b cs = if joins cs then onto_head b cs else (b ∷ []) ∷ cs

chars-cons : (b : ℕ) (t : Text) → chars (b ∷ t) ≡ onto_chars b (chars t)
unfolding chars
chars-cons b t = refl

concat-onto_chars : (b : ℕ) (cs : List Text) → concat (onto_chars b cs) ≡ b ∷ concat cs
concat-onto_chars b [] = refl
concat-onto_chars b ([] ∷ cs) = refl
concat-onto_chars b ((c ∷ d) ∷ cs) = ground arith

pub concat-chars : (t : Text) → concat (chars t) ≡ t
concat-chars [] = unfold chars in refl
concat-chars (b ∷ t) =
    ap concat (chars-cons b t) ∙ concat-onto_chars b (chars t) ∙ ap (λ r. b ∷ r) (concat-chars t)

joins-onto_chars : (b : ℕ) (cs : List Text) → joins (onto_chars b cs) ≡ is_continuation b
joins-onto_chars b [] = refl
joins-onto_chars b ([] ∷ cs) = refl
joins-onto_chars b ((c ∷ d) ∷ cs) = ground arith

joins-chars : (t : Text) → StartsChar t → joins (chars t) ≡ false
joins-chars [] h = unfold chars in refl
joins-chars (b ∷ t) h = ap joins (chars-cons b t) ∙ joins-onto_chars b (chars t) ∙ h

onto_chars-append :
    (b : ℕ) (cs ds : List Text) → joins ds ≡ false → onto_chars b (cs ++ ds) ≡ onto_chars b cs ++ ds
onto_chars-append b [] ds h = rw h refl
onto_chars-append b ([] ∷ cs) ds h = refl
onto_chars-append b ((c ∷ d) ∷ cs) ds h = ground arith

pub chars-append : (s t : Text) → StartsChar t → chars (s ++ t) ≡ chars s ++ chars t
chars-append [] t h = unfold chars in refl
chars-append (b ∷ s) t h =
    chars-cons b (s ++ t)
    ∙ ap (onto_chars b) (chars-append s t h)
    ∙ onto_chars-append b (chars s) (chars t) (joins-chars t h)
    ∙ ap (λ cs. cs ++ chars t) (sym (chars-cons b s))

drop_end_blank :
    (p : Text → Bool) (xs : List Text) (c : Text)
    → p c ≡ true
    → drop_end p (xs ++ (c ∷ [])) ≡ drop_end p xs
drop_end_blank p [] c h = rw h refl
drop_end_blank p (x ∷ xs) c h = rw (drop_end_blank p xs c h) refl

drop_end-append :
    (p : Text → Bool) (xs ys : List Text) (d : Text) (ds : List Text)
    → drop_end p ys ≡ d ∷ ds
    → drop_end p (xs ++ ys) ≡ xs ++ drop_end p ys
drop_end-append p [] ys d ds h = refl
drop_end-append p (x ∷ []) ys d ds h = rw h refl
drop_end-append p (x ∷ y ∷ xs) ys d ds h = rw (drop_end-append p (y ∷ xs) ys d ds h) refl

-- Nothing, or a first character that is not white space.
abbrev pub HeadIsSolid : List Text → Type 0
HeadIsSolid [] = Unit
HeadIsSolid (c ∷ cs) = is_space c ≡ false

pub record IsTrimmed (t : Text) : Type 0 where
  pub starts_char : StartsChar t
  pub head_solid : HeadIsSolid (chars t)
  pub end_kept : drop_end is_space (chars t) ≡ chars t

-- `trim_end` of the source's `str`.
unfoldable pub trim_end : Text → Text
unfolding chars is_space
trim_end t = concat (drop_end is_space (chars t))

abbrev IsNonempty : Text → Type 0
IsNonempty t = (b : ℕ) × (u : Text) × (t ≡ b ∷ u)

newline_char : (t : Text) → StartsChar t → chars (10 ∷ t) ≡ (10 ∷ []) ∷ chars t
newline_char t h = chars-cons 10 t ∙ rw (joins-chars t h) refl

blank : is_space (10 ∷ []) ≡ true
unfolding is_space text_eq
blank = refl

drop_end_some :
    (cs : List Text) → IsNonempty (concat cs) → (d : Text) × (ds : List Text) × (cs ≡ d ∷ ds)
drop_end_some [] (b, u, e) = cc
drop_end_some (c ∷ cs) h = (c, cs, refl)

pub trim_end-append :
    (a t : Text) → StartsChar t → IsNonempty (trim_end t) → trim_end (a ++ t) ≡ a ++ trim_end t
unfolding trim_end
trim_end-append a t h some_left =
    let (d, ds, e) = drop_end_some (drop_end is_space (chars t)) some_left in
    ap (λ cs. concat (drop_end is_space cs)) (chars-append a t h)
    ∙ ap concat (drop_end-append is_space (chars a) (chars t) d ds e)
    ∙ append_assoc-concat (chars a) (drop_end is_space (chars t))
    ∙ ap (λ r. r ++ trim_end t) (concat-chars a)

-- The end of a text is kept: it is no white space.
abbrev pub EndIsKept : Text → Type 0
EndIsKept t = drop_end is_space (chars t) ≡ chars t

pub trim_end_kept : (t : Text) → EndIsKept t → trim_end t ≡ t
unfolding trim_end
trim_end_kept t h = ap concat h ∙ concat-chars t

pub trim_end_newline : (t : Text) → trim_end (t ++ (10 ∷ [])) ≡ trim_end t
unfolding trim_end
trim_end_newline t =
    ap (λ cs. concat (drop_end is_space cs))
      (chars-append t (10 ∷ []) refl
        ∙ ap (λ cs. chars t ++ cs) (newline_char [] tt ∙ unfold chars in refl))
    ∙ ap concat (drop_end_blank is_space (chars t) (10 ∷ []) blank)

drop_while_blank :
    (cs : List Text)
    → drop_end is_space (drop_while is_space (cs ++ ((10 ∷ []) ∷ [])))
      ≡ drop_end is_space (drop_while is_space cs)
drop_while_blank [] = rw blank refl
drop_while_blank (c ∷ cs) = elim (Bool-cases (is_space c)) [
  | inl space ↦ rw space (drop_while_blank cs)
  | inr solid ↦ rw solid (drop_end_blank is_space (c ∷ cs) (10 ∷ []) blank)
]

pub trim_newline : (t : Text) → trim (t ++ (10 ∷ [])) ≡ trim t
unfolding trim trim_matches
trim_newline t =
    ap (λ cs. concat (drop_end is_space (drop_while is_space cs)))
      (chars-append t (10 ∷ []) refl
        ∙ ap (λ cs. chars t ++ cs) (newline_char [] tt ∙ unfold chars in refl))
    ∙ ap concat (drop_while_blank (chars t))

space_first :
    (c : Text) (cs : List Text)
    → is_space c ≡ true
    → drop_while is_space (c ∷ cs) ≡ drop_while is_space cs
space_first c cs h = rw h refl

pub trim_after_newline : (t : Text) → StartsChar t → trim (10 ∷ t) ≡ trim t
unfolding trim trim_matches
trim_after_newline t h =
    ap (λ cs. concat (drop_end is_space (drop_while is_space cs))) (newline_char t h)
    ∙ ap (λ cs. concat (drop_end is_space cs)) (space_first (10 ∷ []) (chars t) blank)

-- A line end before a text that is kept is kept too.
pub kept-newline : (b : ℕ) (t : Text) → IsTrimmed (b ∷ t) → EndIsKept (10 ∷ b ∷ t)
kept-newline b t h =
    let (d, ds, e) = drop_end_some (chars (b ∷ t)) (b, t, concat-chars (b ∷ t)) in
    ap (drop_end is_space) (newline_char (b ∷ t) h.starts_char)
    ∙ drop_end-append is_space ((10 ∷ []) ∷ []) (chars (b ∷ t)) d ds (h.end_kept ∙ e)
    ∙ ap (λ cs. (10 ∷ []) ∷ cs) h.end_kept
    ∙ sym (newline_char (b ∷ t) h.starts_char)

pub HeadIsSolid-append :
    (a t : Text) (b : ℕ) (u : Text)
    → a ≡ b ∷ u
    → HeadIsSolid (chars a)
    → StartsChar t
    → HeadIsSolid (chars (a ++ t))
HeadIsSolid-append a t b u e h k =
    let (d, ds, f) = drop_end_some (chars a) (b, u, concat-chars a ∙ e) in
    subst HeadIsSolid (sym (chars-append a t k ∙ ap (λ cs. cs ++ chars t) f))
      (subst HeadIsSolid f h)

solid_while :
    (cs ds : List Text) → HeadIsSolid (cs ++ ds) → drop_while is_space (cs ++ ds) ≡ cs ++ ds
solid_while [] [] h = refl
solid_while [] (d ∷ ds) h = rw h refl
solid_while (c ∷ cs) ds h = rw h refl

-- A text that begins with no white space is trimmed at its end alone.
pub trim_solid : (t : Text) → HeadIsSolid (chars t) → trim t ≡ trim_end t
unfolding trim trim_matches trim_end
trim_solid t h = ap (λ cs. concat (drop_end is_space cs)) (solid_while [] (chars t) h)

pub trim_trimmed : (t : Text) → IsTrimmed t → trim t ≡ t
trim_trimmed t h = trim_solid t h.head_solid ∙ trim_end_kept t h.end_kept
