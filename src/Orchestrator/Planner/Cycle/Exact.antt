-- ===== src/Orchestrator/Planner/Cycle/Exact.antt =====
-- `detect_cycle` answers whether some task depends on itself through a chain of dependencies.
use alpha_swarm.Prelude.{
  suc, Text, contains, List, [], Option, none, some, Bool, true, false, ◌≡◌, ◌↔◌, refl, sym, ◌∙◌,
  subst, arith, In, In-contains, contains-In, In-map, In-map_of, length,
}
use alpha_swarm.Orchestrator.Task.{SubTask}
use alpha_swarm.Orchestrator.Planner.Cycle.{
  unvisited, in_stack, done, Marks, task_ids, neighbors, dfs, search, all_unvisited, found_of,
  detect_cycle,
}
use alpha_swarm.Orchestrator.Planner.Cycle.Marks.{whites-all_unvisited}
use alpha_swarm.Orchestrator.Planner.Cycle.Search.{Leads, edge, via, Marked, After}
use alpha_swarm.Orchestrator.Planner.Cycle.Nodes.{no_cycle, search-After}
use alpha_swarm.Orchestrator.Planner.Cycle.Edges.{
  get-all_unvisited, all_unvisited_has, neighbors-In, contains-neighbors,
}

-- A task of the plan depends on another through one dependency or more.
pub data DependsOn (tasks : List SubTask) : Text → Text → Type 0 where
  direct :
      (t u : SubTask) → In t tasks → In u tasks → In u.id t.depends_on → DependsOn tasks t.id u.id
  through : {a b c : Text} → DependsOn tasks a b → DependsOn tasks b c → DependsOn tasks a c

module _ (order : List Text → List Text) (tasks : List SubTask)
    (same : (xs : List Text) (x : Text) → contains (order xs) x ≡ contains xs x) where
  abbrev ids : List Text
  ids = order (task_ids tasks)

  abbrev edges : Text → List Text
  edges = neighbors ids tasks

  known_id : (m : Text) → In m (task_ids tasks) → contains ids m ≡ true
  known_id m i = same (task_ids tasks) m ∙ In-contains (task_ids tasks) m i

  task_of : (m : Text) → contains ids m ≡ true → (u : SubTask) × In u tasks × (m ≡ u.id)
  task_of m h =
      In-map (λ t. t.id) m tasks
        (contains-In (task_ids tasks) m (sym (same (task_ids tasks) m) ∙ h))

  edge-DependsOn : (n m : Text) → In m (edges n) → DependsOn tasks n m
  edge-DependsOn n m i =
      let (t, listed, is_n, dep, known) = neighbors-In ids tasks n m i in
      let (u, there_is, is_m) = task_of m known in
      subst (λ k. DependsOn tasks k m) is_n
        (subst (DependsOn tasks t.id) (sym is_m)
          (direct t u listed there_is (subst (λ k. In k t.depends_on) is_m dep)))

  Leads-DependsOn : (n m : Text) → Leads edges n m → DependsOn tasks n m
  Leads-DependsOn n m (edge i) = edge-DependsOn n m i
  Leads-DependsOn n m (via {m = k} i l) = through (edge-DependsOn n k i) (Leads-DependsOn k m l)

  Leads-join : (a b c : Text) → Leads edges a b → Leads edges b c → Leads edges a c
  Leads-join a b c (edge i) l = via i l
  Leads-join a b c (via {m = k} i j) l = via i (Leads-join k b c j l)

  DependsOn-Leads : (n m : Text) → DependsOn tasks n m → Leads edges n m
  DependsOn-Leads _ _ (direct t u listed there_is dep) = edge (
      contains-In (edges t.id) u.id (
        contains-neighbors ids tasks t u.id listed dep
          (known_id u.id (In-map_of (λ v. v.id) u tasks there_is))))
  DependsOn-Leads _ _ (through {a = a} {b = b} {c = c} d e) =
      Leads-join a b c (DependsOn-Leads a b d) (DependsOn-Leads b c e)

  start-Marked : Marked edges (all_unvisited ids) []
  start-Marked = record {
    sorted = tt;
    listed = λ q e. elim (clash (get-all_unvisited ids q done e)) [ ];
    finished = λ q h. cc;
    known = λ n m i.
        let (t, listed, is_n, dep, known) = neighbors-In ids tasks n m i in
        all_unvisited_has ids m (contains-In ids m known);
  }
    where
      clash : done ≡ unvisited → ⊥
      clash e = cc

  searched :
      After edges
        (all_unvisited ids)
        []
        ids
        (search (dfs edges (suc (length ids))) ids (all_unvisited ids))
  searched =
      search-After edges (suc (length ids)) ids (all_unvisited ids) [] start-Marked
        (omega (arith, whites-all_unvisited ids))
        (λ g e. clash (get-all_unvisited ids g in_stack e)) (λ id i. all_unvisited_has ids id i)
    where
      clash : in_stack ≡ unvisited → ⊥
      clash e = cc

  -- A node on a cycle is a task, so the search has finished it.
  cycle_listed : (n m : Text) → Leads edges m n → contains ids n ≡ true
  cycle_listed n m (edge i) =
      let (t, listed, is_n, dep, known) = neighbors-In ids tasks m n i in known
  cycle_listed n m (via {m = k} i l) = cycle_listed n k l

  abbrev Answers : Option Bool → Type 0
  Answers none = ⊥
  Answers (some b) = (b ≡ true) ↔ ((n : Text) × DependsOn tasks n n)

  answers :
      (r : Option (Bool × Marks)) → After edges (all_unvisited ids) [] ids r → Answers (found_of r)
  answers none a = a
  answers (some (true, later)) (n, l) = ((λ e. (n, Leads-DependsOn n n l)), λ c. refl)
  answers (some (false, later)) f = (
    (λ e. cc),
    λ c.
        let (n, d) = c in
        let l = DependsOn-Leads n n d in
        elim (no_cycle edges f.order' n f.marked.sorted
          (f.reached n (contains-In ids n (cycle_listed n n l))) l) [ ],
  )

-- `detect_cycle` ends, in whatever order the hash set gives the ids, and answers yes just when some
-- task depends on itself through a chain of dependencies between tasks of the plan.
pub detect_cycle_iff :
    (order : List Text → List Text) (tasks : List SubTask)
    → ((xs : List Text) (x : Text) → contains (order xs) x ≡ contains xs x)
    → (b : Bool) × (detect_cycle order tasks ≡ some b)
      × ((b ≡ true) ↔ ((n : Text) × DependsOn tasks n n))
unfolding detect_cycle
detect_cycle_iff order tasks same =
    given (detect_cycle order tasks) refl (answers order tasks same _ (searched order tasks same))
  where
    given :
        (o : Option Bool)
        → detect_cycle order tasks ≡ o
        → Answers order tasks same o
        → (b : Bool) × (detect_cycle order tasks ≡ some b)
          × ((b ≡ true) ↔ ((n : Text) × DependsOn tasks n n))
    given none e a = elim a [ ]
    given (some b) e a = (b, e, a)
