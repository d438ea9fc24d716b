-- ===== src/Prelude/Utf8.antt =====
-- `String::from_utf8` of Rust's standard library: which byte sequences it accepts.
use Prim.Native.Nat.{ℕ, zero, suc}
use mathlib.Core.Bool.{Bool, true, false, ◌&&◌}
use mathlib.Core.Option.{Option, none, some}
use mathlib.Core.List.{List, foldl}
use alpha_swarm.Prelude.Tests.{ltb, leb, if◌then◌else◌}

-- Continuation bytes still wanted, and the range of the next one. `none` is a malformed sequence.
abbrev Expected : Type 0
Expected = Option (ℕ × ℕ × ℕ)

abbrev within : ℕ → ℕ → ℕ → Bool
within lo hi b = leb lo b && leb b hi

-- The first byte of a character. The narrower ranges exclude overlong forms, surrogates and
-- values above 0x10FFFF.
lead : ℕ → Expected
lead b =
    if ltb b 0x80
    then some (0, 0, 0)
    else if within 0xC2 0xDF b
    then some (1, 0x80, 0xBF)
    else if within 0xE0 0xE0 b
    then some (2, 0xA0, 0xBF)
    else if within 0xED 0xED b
    then some (2, 0x80, 0x9F)
    else if within 0xE1 0xEF b
    then some (2, 0x80, 0xBF)
    else if within 0xF0 0xF0 b
    then some (3, 0x90, 0xBF)
    else if within 0xF1 0xF3 b
    then some (3, 0x80, 0xBF)
    else if within 0xF4 0xF4 b
    then some (3, 0x80, 0x8F)
    else none

next_byte : Expected → ℕ → Expected
unfolding lead
next_byte none b = none
next_byte (some (zero, lo, hi)) b = lead b
next_byte (some (suc n, lo, hi)) b = if within lo hi b then some (n, 0x80, 0xBF) else none

abbrev ended : Expected → Bool
ended (some (zero, lo, hi)) = true
ended _ = false

unfoldable pub is_utf8 : List ℕ → Bool
unfolding next_byte
is_utf8 bytes = ended (foldl next_byte (some (0, 0, 0)) bytes)
