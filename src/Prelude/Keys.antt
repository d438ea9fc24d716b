-- ===== src/Prelude/Keys.antt =====
-- Lists of texts as keys: membership, distinctness and common prefixes.
use mathlib.Core.Path.{◌≡◌, refl}
use mathlib.Core.Bool.{Bool, true, false, ◌&&◌, ◌||◌}
use mathlib.Core.List.{List, [], ◌∷◌, ◌++◌, map}
use native.Mathlib.Omega.{arith}
use alpha_swarm.Prelude.Tests.{nat_eq, nat_eq_iff}
use alpha_swarm.Prelude.Texts.{Text, text_eq, text_eq_iff, contains}

abbrev pub Distinct : List Text → Type 0
Distinct [] = Unit
Distinct (x ∷ xs) = (contains xs x ≡ false) × Distinct xs

unfoldable pub is_prefix : Text → Text → Bool
is_prefix [] t = true
is_prefix (b ∷ bs) [] = false
is_prefix (b ∷ bs) (c ∷ cs) = nat_eq b c && is_prefix bs cs

pub is_prefix-append : (p t : Text) → is_prefix p (p ++ t) ≡ true
unfolding is_prefix
is_prefix-append [] t = refl
is_prefix-append (b ∷ bs) t = ground (arith, nat_eq_iff b b, is_prefix-append bs t)

pub text_eq-append : (p a b : Text) → text_eq (p ++ a) (p ++ b) ≡ text_eq a b
unfolding text_eq
text_eq-append [] a b = refl
text_eq-append (c ∷ p) a b = ground (arith, nat_eq_iff c c, text_eq-append p a b)

pub contains-append :
    (xs ys : List Text) (a : Text) → contains (xs ++ ys) a ≡ (contains xs a || contains ys a)
contains-append [] ys a = refl
contains-append (x ∷ xs) ys a = ground (arith, contains-append xs ys a)

-- Every key of `xs` has the prefix, and no key of `ys` has it: the two share no key.
abbrev pub AllPrefixed : Text → List Text → Type 0
AllPrefixed p [] = Unit
AllPrefixed p (x ∷ xs) = (is_prefix p x ≡ true) × AllPrefixed p xs

abbrev pub NonePrefixed : Text → List Text → Type 0
NonePrefixed p [] = Unit
NonePrefixed p (x ∷ xs) = (is_prefix p x ≡ false) × NonePrefixed p xs

pub not-contains_of_prefix :
    (p : Text) (xs : List Text) (a : Text)
    → NonePrefixed p xs
    → is_prefix p a ≡ true
    → contains xs a ≡ false
not-contains_of_prefix p [] a h k = refl
not-contains_of_prefix p (x ∷ xs) a h k =
    ground (arith, text_eq_iff x a, not-contains_of_prefix p xs a h.1 k)

pub not-contains_of_no_prefix :
    (p : Text) (xs : List Text) (a : Text)
    → AllPrefixed p xs
    → is_prefix p a ≡ false
    → contains xs a ≡ false
not-contains_of_no_prefix p [] a h k = refl
not-contains_of_no_prefix p (x ∷ xs) a h k =
    ground (arith, text_eq_iff x a, not-contains_of_no_prefix p xs a h.1 k)

pub Distinct-append :
    (p : Text) (xs ys : List Text)
    → Distinct xs
    → Distinct ys
    → NonePrefixed p xs
    → AllPrefixed p ys
    → Distinct (xs ++ ys)
Distinct-append p [] ys h k n a = k
Distinct-append p (x ∷ xs) ys h k n a = (
  ground (arith, contains-append xs ys x, not-contains_of_no_prefix p ys x a n.0),
  Distinct-append p xs ys h.1 k n.1 a,
)

pub contains-map_append :
    (p : Text) (xs : List Text) (a : Text)
    → contains (map (λ x. p ++ x) xs) (p ++ a) ≡ contains xs a
contains-map_append p [] a = refl
contains-map_append p (x ∷ xs) a = ground (arith, text_eq-append p x a, contains-map_append p xs a)

pub Distinct-map_append :
    (p : Text) (xs : List Text) → Distinct xs → Distinct (map (λ x. p ++ x) xs)
Distinct-map_append p [] h = tt
Distinct-map_append p (x ∷ xs) h =
    (ground (arith, contains-map_append p xs x), Distinct-map_append p xs h.1)

pub AllPrefixed-map_append : (p : Text) (xs : List Text) → AllPrefixed p (map (λ x. p ++ x) xs)
AllPrefixed-map_append p [] = tt
AllPrefixed-map_append p (x ∷ xs) = (is_prefix-append p x, AllPrefixed-map_append p xs)
