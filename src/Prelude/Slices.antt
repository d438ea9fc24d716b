-- ===== src/Prelude/Slices.antt =====
-- Methods of `str` that look for a pattern or cut a part off, on the bytes of a text.
pub mod Find
pub mod Trim
use Prim.Native.Nat.{ℕ, zero, suc, ◌-◌}
use mathlib.Core.Bool.{Bool, true, false, ◌&&◌}
use mathlib.Core.Option.{Option, none, some}
use mathlib.Core.List.{List, [], ◌∷◌, ◌++◌}
use alpha_swarm.Prelude.Tests.{nat_eq, leb, ltb, if◌then◌else◌}
use alpha_swarm.Prelude.Lists.{take, length, filter}
use alpha_swarm.Prelude.Texts.{Text, text_eq, contains}
use alpha_swarm.Prelude.Keys.{is_prefix}

abbrev plus_one : Option ℕ → Option ℕ
plus_one none = none
plus_one (some n) = some (suc n)

-- `find`: where the pattern first begins.
unfoldable pub text_find : Text → Text → Option ℕ
unfolding is_prefix
text_find pattern [] = if is_prefix pattern [] then some 0 else none
text_find pattern (b ∷ bs) =
    let later = text_find pattern bs in
    if is_prefix pattern (b ∷ bs) then some 0 else plus_one later

-- `rfind`: where the pattern last begins.
unfoldable pub text_rfind : Text → Text → Option ℕ
unfolding is_prefix
text_rfind pattern [] = if is_prefix pattern [] then some 0 else none
text_rfind pattern (b ∷ bs) = elim (text_rfind pattern bs) [
  | some n ↦ some (suc n)
  | none ↦ if is_prefix pattern (b ∷ bs) then some 0 else none
]

-- `contains` of a text.
unfoldable pub text_contains : Text → Text → Bool
unfolding text_find
text_contains t pattern = elim (text_find pattern t) [ none ↦ false | some n ↦ true ]

abbrev pub starts_with : Text → Text → Bool
starts_with t pattern = is_prefix pattern t

abbrev pub drop : ℕ → Text → Text
drop zero bs = bs
drop (suc n) [] = []
drop (suc n) (b ∷ bs) = drop n bs

-- `&t[from..to]`, which panics when the end is before the start.
abbrev pub slice : ℕ → ℕ → Text → Option Text
slice from to t = if leb from to then some (take (to - from) (drop from t)) else none

-- `strip_prefix`
unfoldable pub strip_prefix : Text → Text → Option Text
unfolding is_prefix
strip_prefix pattern t = if is_prefix pattern t then some (drop (length pattern) t) else none

-- A byte inside a character of UTF-8, not its first.
abbrev pub is_continuation : ℕ → Bool
is_continuation b = leb 128 b && ltb b 192

abbrev joins : List Text → Bool
joins ((b ∷ bs) ∷ cs) = is_continuation b
joins _ = false

abbrev onto_head : ℕ → List Text → List Text
onto_head b [] = (b ∷ []) ∷ []
onto_head b (c ∷ cs) = (b ∷ c) ∷ cs

-- `chars`: the characters of a valid text, each as its bytes.
unfoldable pub chars : Text → List Text
chars [] = []
chars (b ∷ bs) = let rest = chars bs in if joins rest then onto_head b rest else (b ∷ []) ∷ rest

abbrev pub concat : List Text → Text
concat [] = []
concat (t ∷ ts) = t ++ concat ts

-- `t.chars().take(n).collect()`
unfoldable pub take_chars : ℕ → Text → Text
unfolding chars
take_chars n t = concat (take n (chars t))

-- The characters with the Unicode property `White_Space`.
abbrev white_space : List Text
white_space =
    (9 ∷ [])
    ∷ (10 ∷ [])
    ∷ (11 ∷ [])
    ∷ (12 ∷ [])
    ∷ (13 ∷ [])
    ∷ (32 ∷ [])
    ∷ (194 ∷ 133 ∷ [])
    ∷ (194 ∷ 160 ∷ [])
    ∷ (225 ∷ 154 ∷ 128 ∷ [])
    ∷ (226 ∷ 128 ∷ 128 ∷ [])
    ∷ (226 ∷ 128 ∷ 129 ∷ [])
    ∷ (226 ∷ 128 ∷ 130 ∷ [])
    ∷ (226 ∷ 128 ∷ 131 ∷ [])
    ∷ (226 ∷ 128 ∷ 132 ∷ [])
    ∷ (226 ∷ 128 ∷ 133 ∷ [])
    ∷ (226 ∷ 128 ∷ 134 ∷ [])
    ∷ (226 ∷ 128 ∷ 135 ∷ [])
    ∷ (226 ∷ 128 ∷ 136 ∷ [])
    ∷ (226 ∷ 128 ∷ 137 ∷ [])
    ∷ (226 ∷ 128 ∷ 138 ∷ [])
    ∷ (226 ∷ 128 ∷ 168 ∷ [])
    ∷ (226 ∷ 128 ∷ 169 ∷ [])
    ∷ (226 ∷ 128 ∷ 175 ∷ [])
    ∷ (226 ∷ 129 ∷ 159 ∷ [])
    ∷ (227 ∷ 128 ∷ 128 ∷ [])
    ∷ []

-- `char::is_whitespace`, for a character as its bytes.
unfoldable pub is_space : Text → Bool
unfolding text_eq
is_space c = contains white_space c

abbrev pub drop_while : (Text → Bool) → List Text → List Text
drop_while p [] = []
drop_while p (c ∷ cs) = if p c then drop_while p cs else c ∷ cs

abbrev pub drop_end : (Text → Bool) → List Text → List Text
drop_end p [] = []
drop_end p (c ∷ cs) = elim (drop_end p cs) [ [] ↦ if p c then [] else c ∷ [] | d ∷ ds ↦ c ∷ d ∷ ds ]

-- `trim_matches` with a test of characters.
unfoldable pub trim_matches : (Text → Bool) → Text → Text
unfolding chars
trim_matches p t = concat (drop_end p (drop_while p (chars t)))

unfoldable pub trim : Text → Text
unfolding trim_matches is_space
trim t = trim_matches is_space t

unfoldable pub trim_start : Text → Text
unfolding chars is_space
trim_start t = concat (drop_while is_space (chars t))

-- The words of some characters; the first is the one that the characters begin with, if any.
abbrev words_of : List Text → List Text
words_of [] = [] ∷ []
words_of (c ∷ cs) =
    let rest = words_of cs in
    if is_space c then [] ∷ rest else elim rest [ [] ↦ c ∷ [] | w ∷ ws ↦ (c ++ w) ∷ ws ]

abbrev is_nonempty : Text → Bool
is_nonempty [] = false
is_nonempty (b ∷ bs) = true

unfoldable pub split_whitespace : Text → List Text
unfolding chars is_space
split_whitespace t = filter is_nonempty (words_of (chars t))

-- `split` at one byte.
unfoldable pub split_at_byte : ℕ → Text → List Text
split_at_byte b [] = [] ∷ []
split_at_byte b (c ∷ cs) =
    let rest = split_at_byte b cs in
    if nat_eq c b then [] ∷ rest else elim rest [ [] ↦ (c ∷ []) ∷ [] | w ∷ ws ↦ (c ∷ w) ∷ ws ]

-- `rsplit_once` at one byte: what is before and after its last occurrence.
unfoldable pub rsplit_once : ℕ → Text → Option (Text × Text)
rsplit_once b [] = none
rsplit_once b (c ∷ cs) = elim (rsplit_once b cs) [
  | some (before, after) ↦ some (c ∷ before, after)
  | none ↦ if nat_eq c b then some ([], cs) else none
]
