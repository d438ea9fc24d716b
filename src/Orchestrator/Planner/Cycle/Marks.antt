-- ===== src/Orchestrator/Planner/Cycle/Marks.antt =====
-- How the search changes its marks, and how many nodes are still unvisited.
use alpha_swarm.Prelude.{
  ℕ, ◌+◌, ◌≤◌, Text, text_eq, text_eq_iff, List, [], ◌∷◌, Option, none, some, Bool, true, false,
  ◌≡◌, refl, sym, ◌∙◌, arith, Bool-cases, inl, inr, ◌⊎◌, if◌then◌else◌, length, ◌≢◌, subst,
  text_eq_refl, if_some-cases,
}
use alpha_swarm.Prelude.Maps.{get, insert, has_key, has_key-get, replace, place, get-insert}
use alpha_swarm.Orchestrator.Planner.Cycle.{Mark, unvisited, in_stack, done, Marks, all_unvisited}

abbrev is_unvisited : Mark → Bool
is_unvisited unvisited = true
is_unvisited _ = false

-- The number of unvisited nodes.
abbrev pub whites : Marks → ℕ
whites [] = 0
whites ((k, m) ∷ marks) = (if is_unvisited m then 1 else 0) + whites marks

whites-replace :
    (k : Text) (m : Mark) (marks : Marks)
    → is_unvisited m ≡ false
    → (get k marks ≡ some unvisited → whites (replace k m marks) + 1 ≡ whites marks)
      × (whites (replace k m marks) ≤ whites marks)
whites-replace k m [] h = ground arith
whites-replace k m ((j, v) ∷ marks) h = ground (arith, whites-replace k m marks h)

-- A node that has a mark keeps its place when it gets another.
module _ (k : Text) (old m : Mark) (marks : Marks) (marked : get k marks ≡ some old) where
  is_known : has_key k marks ≡ true
  is_known = elim (Bool-cases (has_key k marks)) [
    | inl known ↦ known
    | inr unknown ↦ cc (marked, (has_key-get k marks).0 unknown)
  ]

  insert_known : insert k m marks ≡ replace k m marks
  unfolding insert
  insert_known = rw is_known refl

  pub whites-insert : is_unvisited m ≡ false → whites (insert k m marks) ≤ whites marks
  whites-insert h = rw insert_known (whites-replace k m marks h).1

pub whites-insert_unvisited :
    (k : Text) (m : Mark) (marks : Marks)
    → get k marks ≡ some unvisited
    → is_unvisited m ≡ false
    → whites (insert k m marks) + 1 ≡ whites marks
whites-insert_unvisited k m marks marked h =
    rw (insert_known k unvisited m marks marked) ((whites-replace k m marks h).0 marked)

whites-place : (k : Text) (marks : Marks) → whites (place k unvisited marks) ≤ whites marks + 1
whites-place k [] = omega arith
whites-place k ((j, v) ∷ marks) = ground (arith, whites-place k marks)

whites-replace_any :
    (k : Text) (marks : Marks) → whites (replace k unvisited marks) ≤ whites marks + 1
whites-replace_any k [] = omega arith
whites-replace_any k ((j, v) ∷ marks) = ground (arith, whites-replace_any k marks)

pub whites-all_unvisited : (ids : List Text) → whites (all_unvisited ids) ≤ length ids
unfolding insert
whites-all_unvisited [] = omega arith
whites-all_unvisited (id ∷ ids) = ground (
  arith,
  whites-all_unvisited ids,
  whites-place id (all_unvisited ids),
  whites-replace_any id (all_unvisited ids),
)

-- What a search of one node, or of all ids, can give.
pub Run-cases :
    (r : Option (Bool × Marks))
    → (r ≡ none)
      ⊎ ((state : Marks) × (r ≡ some (true, state)))
      ⊎ ((state : Marks) × (r ≡ some (false, state)))
Run-cases none = inl refl
Run-cases (some (true, state)) = inr (inl (state, refl))
Run-cases (some (false, state)) = inr (inr (state, refl))

pub Mark-cases : (m : Mark) → (m ≡ unvisited) ⊎ (m ≡ in_stack) ⊎ (m ≡ done)
Mark-cases unvisited = inl refl
Mark-cases in_stack = inr (inl refl)
Mark-cases done = inr (inr refl)

pub get_own : (n : Text) (m : Mark) (state : Marks) → get n (insert n m state) ≡ some m
get_own n m state = get-insert n n m state ∙ (rw (text_eq_refl n) refl)

pub get_other :
    (n q : Text) (m : Mark) (state : Marks)
    → text_eq n q ≡ false
    → get q (insert n m state) ≡ get q state
get_other n q m state other = get-insert n q m state ∙ (rw other refl)

-- A mark that is read after a change is the new one or an old one.
pub get-cases :
    (n q : Text) (m v : Mark) (state : Marks)
    → get q (insert n m state) ≡ some v
    → ((n ≡ q) × (m ≡ v)) ⊎ ((text_eq n q ≡ false) × (get q state ≡ some v))
get-cases n q m v state e =
    elim (if_some-cases (text_eq n q) m v (get q state) (sym (get-insert n q m state) ∙ e)) [
      | inl (same, is_v) ↦ inl ((text_eq_iff n q).0 same, is_v)
      | inr other ↦ inr other
    ]

-- Two different marks are not at one node.
pub apart :
    (n q : Text) (state : Marks) (v w : Mark)
    → get n state ≡ some v
    → get q state ≡ some w
    → v ≢ w
    → text_eq n q ≡ false
apart n q state v w e f differ = elim (Bool-cases (text_eq n q)) [
  | inl same ↦
      let g : get q state ≡ some v =
        subst (λ k. get k state ≡ some v) ((text_eq_iff n q).0 same) e in
      elim (differ cc) [ ]
  | inr other ↦ other
]

-- A marked node stays marked.
pub get-some :
    (n q : Text) (m v : Mark) (state : Marks)
    → get q state ≡ some v
    → (w : Mark) × (get q (insert n m state) ≡ some w)
get-some n q m v state e = elim (Bool-cases (text_eq n q)) [
  | inl same ↦ (m, get-insert n q m state ∙ (rw same refl))
  | inr other ↦ (v, get_other n q m state other ∙ e)
]
