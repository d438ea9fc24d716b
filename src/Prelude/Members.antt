-- ===== src/Prelude/Members.antt =====
-- Membership of a list as a family that can be matched on.
use mathlib.Core.Path.{◌≡◌, refl, sym, ap, subst}
use mathlib.Core.Logic.{◌⊎◌, inl, inr}
use mathlib.Core.Bool.{Bool, true}
use mathlib.Core.List.{List, [], ◌∷◌, ◌++◌, map}
use alpha_swarm.Prelude.Tests.{Bool-cases}
use alpha_swarm.Prelude.Lists.{filter}

pub data In {ℓ} {A : Type ℓ} (x : A) : List A → Type ℓ where
  here : {y : A} {ys : List A} → x ≡ y → In x (y ∷ ys)
  there : {y : A} {ys : List A} → In x ys → In x (y ∷ ys)

module _ {ℓ} {A : Type ℓ} where
  pub In-append : (x : A) (xs ys : List A) → In x (xs ++ ys) → In x xs ⊎ In x ys
  In-append x [] ys m = inr m
  In-append x (z ∷ xs) ys (here e) = inl (here e)
  In-append x (z ∷ xs) ys (there m) = elim (In-append x xs ys m) [
    | inl a ↦ inl (there a)
    | inr b ↦ inr b
  ]

  pub In-filter : (q : A → Bool) (x : A) (ys : List A) → In x (filter q ys) → In x ys × (q x ≡ true)
  In-filter q x [] m = elim m [ ]
  In-filter q x (y ∷ ys) m = elim (Bool-cases (q y)) [
    | inl keep ↦ first keep (rw keep at m) (In-filter q x ys)
    | inr drop ↦ let (later, holds) = In-filter q x ys (rw drop at m) in (there later, holds)
  ]
    where
      first :
          q y ≡ true
          → In x (y ∷ filter q ys)
          → (In x (filter q ys) → In x ys × (q x ≡ true))
          → In x (y ∷ ys) × (q x ≡ true)
      first keep (here e) rest = (here e, subst (λ z. q z ≡ true) (sym e) keep)
      first keep (there n) rest = let (later, holds) = rest n in (there later, holds)

pub In-map {ℓ κ} :
    {A : Type ℓ} {B : Type κ} (f : A → B) (b : B) (xs : List A)
    → In b (map f xs)
    → (a : A) × In a xs × (b ≡ f a)
In-map f b [] m = elim m [ ]
In-map f b (x ∷ xs) (here e) = (x, here refl, e)
In-map f b (x ∷ xs) (there m) = let (a, n, e) = In-map f b xs m in (a, there n, e)

pub In-map_of {ℓ κ} :
    {A : Type ℓ} {B : Type κ} (f : A → B) (a : A) (xs : List A) → In a xs → In (f a) (map f xs)
In-map_of f a [] m = elim m [ ]
In-map_of f a (x ∷ xs) (here e) = here (ap f e)
In-map_of f a (x ∷ xs) (there m) = there (In-map_of f a xs m)

module _ {ℓ} {A : Type ℓ} where
  pub In-left : (x : A) (xs ys : List A) → In x xs → In x (xs ++ ys)
  In-left x [] ys m = elim m [ ]
  In-left x (z ∷ xs) ys (here e) = here e
  In-left x (z ∷ xs) ys (there m) = there (In-left x xs ys m)

  pub In-right : (x : A) (xs ys : List A) → In x ys → In x (xs ++ ys)
  In-right x [] ys m = m
  In-right x (z ∷ xs) ys m = there (In-right x xs ys m)

  pub In-filter_of :
      (q : A → Bool) (x : A) (xs : List A) → In x xs → q x ≡ true → In x (filter q xs)
  In-filter_of q x [] m h = elim m [ ]
  In-filter_of q x (y ∷ ys) (here e) h = rw (subst (λ z. q z ≡ true) e h) (here e)
  In-filter_of q x (y ∷ ys) (there m) h = elim (Bool-cases (q y)) [
    | inl keep ↦ rw keep (there (In-filter_of q x ys m h))
    | inr drop ↦ rw drop (In-filter_of q x ys m h)
  ]
