-- ===== src/Prelude/Slices/Find.antt =====
-- Where a pattern begins in a text that is put together from parts.
use Prim.Native.Nat.{ℕ, zero, suc, ◌+◌, ◌≤◌}
use mathlib.Core.Path.{◌≡◌, refl, sym, ◌∙◌, ap}
use mathlib.Core.Logic.{inl, inr}
use mathlib.Core.Bool.{true, false}
use mathlib.Core.Option.{Option, none, some}
use mathlib.Core.List.{[], ◌∷◌, ◌++◌, append_assoc}
use native.Mathlib.Omega.{arith}
use alpha_swarm.Prelude.Tests.{nat_eq, Bool-cases}
use alpha_swarm.Prelude.Lists.{take, length, any}
use alpha_swarm.Prelude.Texts.{Text}
use alpha_swarm.Prelude.Keys.{is_prefix, is_prefix-append}
use alpha_swarm.Prelude.Slices.{plus_one, text_find, drop}

-- The byte does not occur.
abbrev pub IsFreeOf : ℕ → Text → Type 0
IsFreeOf c t = any (nat_eq c) t ≡ false

plus_one-some : (o : Option ℕ) (n : ℕ) → plus_one o ≡ some n → (m : ℕ) × (o ≡ some m) × (n ≡ suc m)
plus_one-some none n e = cc
plus_one-some (some m) n e = (m, refl, cc)

pub length-drop : (n : ℕ) (t : Text) → n ≤ length t → length (drop n t) + n ≡ length t
length-drop zero t h = omega arith
length-drop (suc n) [] h = omega arith
length-drop (suc n) (b ∷ t) h = omega (arith, length-drop n t (omega (arith, h)))

is_prefix-length : (p t : Text) → is_prefix p t ≡ true → length p ≤ length t
unfolding is_prefix
is_prefix-length [] t h = omega arith
is_prefix-length (b ∷ p) [] h = cc
is_prefix-length (b ∷ p) (c ∷ t) h = ground (arith, is_prefix-length p t)

-- A pattern ends inside the text that it is found in.
pub text_find-length : (p t : Text) (n : ℕ) → text_find p t ≡ some n → n + length p ≤ length t
unfolding text_find
text_find-length p [] n e = elim (Bool-cases (is_prefix p [])) [
  | inl h ↦ ground (arith, is_prefix-length p [] h)
  | inr h ↦ ground arith
]
text_find-length p (b ∷ t) n e = elim (Bool-cases (is_prefix p (b ∷ t))) [
  | inl h ↦ ground (arith, is_prefix-length p (b ∷ t) h)
  | inr h ↦
      let (m, found, is_suc) = plus_one-some (text_find p t) n (ground arith) in
      omega (arith, text_find-length p t m found, is_suc)
]

pub text_find_here : (p t : Text) → is_prefix p t ≡ true → text_find p t ≡ some 0
unfolding text_find
text_find_here p [] h = rw h refl
text_find_here p (b ∷ t) h = rw h refl

text_find_later :
    (p : Text) (b : ℕ) (t : Text)
    → is_prefix p (b ∷ t) ≡ false
    → text_find p (b ∷ t) ≡ plus_one (text_find p t)
unfolding text_find
text_find_later p b t h = rw h refl

-- A pattern without the byte `c` that begins before a `c` ends before it.
is_prefix_before :
    (p a : Text) (c : ℕ) (t : Text) → IsFreeOf c p → is_prefix p (a ++ (c ∷ t)) ≡ is_prefix p a
unfolding is_prefix
is_prefix_before [] [] c t h = refl
is_prefix_before [] (x ∷ a) c t h = refl
is_prefix_before (b ∷ p) [] c t h = ground arith
is_prefix_before (b ∷ p) (x ∷ a) c t h = ground (arith, is_prefix_before p a c t (ground arith))

none_at : (p : Text) (b : ℕ) (t : Text) → text_find p (b ∷ t) ≡ none → is_prefix p (b ∷ t) ≡ false
unfolding text_find
none_at p b t h = elim (Bool-cases (is_prefix p (b ∷ t))) [ inl e ↦ ground arith | inr e ↦ e ]

none_after : (p : Text) (b : ℕ) (t : Text) → text_find p (b ∷ t) ≡ none → text_find p t ≡ none
unfolding text_find
none_after p b t h = elim (text_find p t) [ none ↦ ground arith | some n ↦ ground arith ]

none_at_end : (p : Text) → text_find p [] ≡ none → is_prefix p [] ≡ false
unfolding text_find
none_at_end p h = elim (Bool-cases (is_prefix p [])) [ inl e ↦ ground arith | inr e ↦ e ]

-- No occurrence in two parts, and none across the byte between them.
pub text_find_joined :
    (p a : Text) (c : ℕ) (t : Text)
    → IsFreeOf c p
    → text_find p a ≡ none
    → text_find p t ≡ none
    → text_find p (a ++ (c ∷ t)) ≡ none
text_find_joined p [] c t h e f =
    text_find_later p c t (is_prefix_before p [] c t h ∙ none_at_end p e) ∙ ap plus_one f
text_find_joined p (x ∷ a) c t h e f =
    text_find_later p x (a ++ (c ∷ t)) (is_prefix_before p (x ∷ a) c t h ∙ none_at p x a e)
    ∙ ap plus_one (text_find_joined p a c t h (none_after p x a e) f)

-- The pattern behind a part without it and one more byte.
pub text_find_behind :
    (p a : Text) (c : ℕ) (t : Text)
    → IsFreeOf c p
    → text_find p a ≡ none
    → text_find p (a ++ (c ∷ (p ++ t))) ≡ some (suc (length a))
text_find_behind p [] c t h e =
    text_find_later p c (p ++ t) (is_prefix_before p [] c (p ++ t) h ∙ none_at_end p e)
    ∙ ap plus_one (text_find_here p (p ++ t) (is_prefix-append p t))
text_find_behind p (x ∷ a) c t h e =
    text_find_later p x (a ++ (c ∷ (p ++ t)))
      (is_prefix_before p (x ∷ a) c (p ++ t) h ∙ none_at p x a e)
    ∙ ap plus_one (text_find_behind p a c t h (none_after p x a e))

-- One byte as the pattern.
pub text_find_byte :
    (a : Text) (c : ℕ) (t : Text)
    → text_find (c ∷ []) a ≡ none
    → text_find (c ∷ []) (a ++ (c ∷ t)) ≡ some (length a)
text_find_byte [] c t e = text_find_here (c ∷ []) (c ∷ t) (is_prefix-append (c ∷ []) t)
text_find_byte (x ∷ a) c t e =
    text_find_later (c ∷ []) x (a ++ (c ∷ t)) (other (none_at (c ∷ []) x a e))
    ∙ ap plus_one (text_find_byte a c t (none_after (c ∷ []) x a e))
  where
    other : is_prefix (c ∷ []) (x ∷ a) ≡ false → is_prefix (c ∷ []) (x ∷ (a ++ (c ∷ t))) ≡ false
    other h = unfold is_prefix in ground (arith, h)

pub text_find_byte_joined :
    (a : Text) (c : ℕ) (t : Text)
    → text_find (c ∷ []) a ≡ none
    → text_find (c ∷ []) t ≡ none
    → text_find (c ∷ []) (a ++ t) ≡ none
text_find_byte_joined [] c t e f = f
text_find_byte_joined (x ∷ a) c t e f =
    text_find_later (c ∷ []) x (a ++ t) (other (none_at (c ∷ []) x a e))
    ∙ ap plus_one (text_find_byte_joined a c t (none_after (c ∷ []) x a e) f)
  where
    other : is_prefix (c ∷ []) (x ∷ a) ≡ false → is_prefix (c ∷ []) (x ∷ (a ++ t)) ≡ false
    other h = unfold is_prefix in ground (arith, h)

pub take-length : (a t : Text) → take (length a) (a ++ t) ≡ a
take-length [] [] = refl
take-length [] (b ∷ t) = refl
take-length (x ∷ a) t = ap (λ r. x ∷ r) (take-length a t)

pub drop-length : (a t : Text) → drop (length a) (a ++ t) ≡ t
drop-length [] t = refl
drop-length (x ∷ a) t = drop-length a t

length_behind : (a : Text) (c : ℕ) (p : Text) → length (a ++ (c ∷ p)) ≡ suc (length a) + length p
length_behind [] c p = omega arith
length_behind (x ∷ a) c p = omega (arith, length_behind a c p)

pub drop_behind :
    (a : Text) (c : ℕ) (p t : Text) → drop (suc (length a) + length p) (a ++ (c ∷ (p ++ t))) ≡ t
drop_behind a c p t =
    ap (λ n. drop n (a ++ (c ∷ (p ++ t)))) (sym (length_behind a c p))
    ∙ ap (drop (length (a ++ (c ∷ p)))) (sym (append_assoc a (c ∷ p) t))
    ∙ drop-length (a ++ (c ∷ p)) t

pub take_behind :
    (a : Text) (c : ℕ) (t : Text) → take (suc (length a)) (a ++ (c ∷ t)) ≡ a ++ (c ∷ [])
take_behind [] c [] = refl
take_behind [] c (b ∷ t) = refl
take_behind (x ∷ a) c t = ap (λ r. x ∷ r) (take_behind a c t)

pub drop_line : (a : Text) (c : ℕ) (t : Text) → drop (length a + 1) (a ++ (c ∷ t)) ≡ t
drop_line a c t =
    let same : length a + 1 ≡ suc (length a) = omega arith in
    ap (λ n. drop n (a ++ (c ∷ t))) same ∙ drop_suc a
  where
    drop_suc : (a : Text) → drop (suc (length a)) (a ++ (c ∷ t)) ≡ t
    drop_suc [] = refl
    drop_suc (x ∷ a) = drop_suc a
