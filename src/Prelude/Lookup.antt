-- ===== src/Prelude/Lookup.antt =====
-- `contains` and membership of a list of texts.
use mathlib.Core.Path.{◌≡◌, refl, sym}
use mathlib.Core.Logic.{inl, inr}
use mathlib.Core.Bool.{true}
use mathlib.Core.List.{List, [], ◌∷◌}
use native.Mathlib.Omega.{arith}
use alpha_swarm.Prelude.Tests.{Bool-cases}
use alpha_swarm.Prelude.Texts.{Text, text_eq, text_eq_iff, contains}
use alpha_swarm.Prelude.Members.{In, here, there}

pub contains-In : (xs : List Text) (a : Text) → contains xs a ≡ true → In a xs
contains-In [] a h = cc
contains-In (x ∷ xs) a h = elim (Bool-cases (text_eq x a)) [
  | inl same ↦ here (sym ((text_eq_iff x a).0 same))
  | inr other ↦ there (contains-In xs a (rw other at h))
]

pub In-contains : (xs : List Text) (a : Text) → In a xs → contains xs a ≡ true
In-contains [] a m = elim m [ ]
In-contains (x ∷ xs) a (here e) = rw ((text_eq_iff x a).1 (sym e)) refl
In-contains (x ∷ xs) a (there m) = ground (arith, In-contains xs a m)
