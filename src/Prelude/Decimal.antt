-- ===== src/Prelude/Decimal.antt =====
-- `format!("{n}")` for a `u32`: decimal digits, the most significant first.
use Prim.Native.Nat.{ℕ, zero, suc, ◌+◌, ◌/◌, ◌%◌}
use mathlib.Core.List.{[], ◌∷◌, ◌++◌}
use alpha_swarm.Prelude.Tests.{ltb, if◌then◌else◌}
use alpha_swarm.Prelude.Texts.{Text}

digits : ℕ → ℕ → Text
digits zero n = []
digits (suc fuel) n =
    let higher = digits fuel (n / 10) in
    if ltb n 10 then (b'0' + n) ∷ [] else higher ++ (b'0' + n % 10) ∷ []

-- A `u32` has at most ten digits.
unfoldable pub decimal : ℕ → Text
unfolding digits
decimal n = digits 10 n
