-- ===== src/Orchestrator/Planner/Cycle.antt =====
-- crates/orchestrator/src/planner_types.rs, `detect_cycle`: a depth-first search with three marks.
pub mod Marks
pub mod Search
pub mod Nodes
pub mod Edges
pub mod Exact
use alpha_swarm.Prelude.{
  ℕ, zero, suc, Text, text_eq, contains, List, [], ◌∷◌, ◌++◌, map, filter, Option, none, some, Bool,
  true, false, if◌then◌else◌, length,
}
use alpha_swarm.Prelude.Maps.{Map, get, insert}
use alpha_swarm.Orchestrator.Task.{SubTask}

abbrev pub task_ids : List SubTask → List Text
task_ids tasks = map (λ t. t.id) tasks

-- `adj.get(node)`: the dependencies of the tasks with this id that are tasks of the plan.
unfoldable pub neighbors : List Text → List SubTask → Text → List Text
neighbors ids [] node = []
neighbors ids (t ∷ tasks) node =
    let rest = neighbors ids tasks node in
    if text_eq t.id node then filter (contains ids) t.depends_on ++ rest else rest

-- 0, 1 and 2 of the source.
pub data Mark : Type 0 where
  unvisited in_stack done : Mark

abbrev pub Marks : Type 0
Marks = Map Mark

-- The loop over a node's neighbors, with the search of one node; `none` is out of fuel.
abbrev pub visit :
    (Text → Marks → Option (Bool × Marks)) → List Text → Marks → Option (Bool × Marks)
visit dfs [] state = some (false, state)
visit dfs (n ∷ ns) state = elim (get n state) [
  | none ↦ visit dfs ns state
  | some mark ↦ elim mark [
    | in_stack ↦ some (true, state)
    | done ↦ visit dfs ns state
    | unvisited ↦ elim (dfs n state) [
      | none ↦ none
      | some (found, later) ↦ if found then some (true, later) else visit dfs ns later
    ]
  ]
]

unfoldable pub dfs : (Text → List Text) → ℕ → Text → Marks → Option (Bool × Marks)
unfolding insert
dfs adj zero node state = none
dfs adj (suc fuel) node state =
    elim (visit (dfs adj fuel) (adj node) (insert node in_stack state)) [
      | none ↦ none
      | some (found, later) ↦
          if found then some (true, later) else some (false, insert node done later)
    ]

-- The loop over all ids.
abbrev pub search :
    (Text → Marks → Option (Bool × Marks)) → List Text → Marks → Option (Bool × Marks)
search dfs [] state = some (false, state)
search dfs (id ∷ ids) state = elim (get id state) [
  | none ↦ search dfs ids state
  | some mark ↦ elim mark [
    | unvisited ↦ elim (dfs id state) [
      | none ↦ none
      | some (found, later) ↦ if found then some (true, later) else search dfs ids later
    ]
    | _ ↦ search dfs ids state
  ]
]

abbrev pub all_unvisited : List Text → Marks
all_unvisited [] = []
all_unvisited (id ∷ ids) = insert id unvisited (all_unvisited ids)

abbrev pub found_of : Option (Bool × Marks) → Option Bool
found_of none = none
found_of (some (found, state)) = some found

-- `order` gives the ids as the hash set iterates over them; `none` is out of fuel.
unfoldable pub detect_cycle : (List Text → List Text) → List SubTask → Option Bool
unfolding neighbors dfs
detect_cycle order tasks =
    let ids = order (task_ids tasks) in
    found_of (search (dfs (neighbors ids tasks) (suc (length ids))) ids (all_unvisited ids))
