-- ===== src/Prelude/Strings.antt =====
-- String methods of Rust's standard library that the source calls: `ends_with`, `lines`, `join`.
use Prim.Native.Nat.{ℕ}
use mathlib.Core.Bool.{Bool, false, ◌&&◌, ◌||◌}
use mathlib.Core.List.{List, [], ◌∷◌, ◌++◌}
use alpha_swarm.Prelude.Tests.{nat_eq, if◌then◌else◌}
use alpha_swarm.Prelude.Texts.{Text, text_eq}

unfoldable pub ends_with : Text → Text → Bool
ends_with [] suffix = text_eq [] suffix
ends_with (b ∷ bs) suffix = text_eq (b ∷ bs) suffix || ends_with bs suffix

abbrev onto_first : ℕ → List Text → List Text
onto_first b [] = (b ∷ []) ∷ []
onto_first b (l ∷ ls) = (b ∷ l) ∷ ls

abbrev line_feed_next : Text → Bool
line_feed_next [] = false
line_feed_next (b ∷ bs) = nat_eq b 10

-- A line ends with a line feed or with a carriage return and a line feed; the last may have none.
unfoldable pub lines : Text → List Text
lines [] = []
lines (b ∷ bs) =
    let rest = lines bs in
    if nat_eq b 10
    then [] ∷ rest
    else if nat_eq b 13 && line_feed_next bs
    then rest
    else onto_first b rest

unfoldable pub join : Text → List Text → Text
join separator [] = []
join separator (t ∷ []) = t
join separator (t ∷ u ∷ ts) = t ++ (separator ++ join separator (u ∷ ts))
