-- ===== src/Orchestrator/Planner/Cycle/Edges.antt =====
-- The marks that the search starts with, and the edges between tasks.
use alpha_swarm.Prelude.{
  Text, text_eq, text_eq_iff, contains, contains-append, List, [], ◌∷◌, filter, some, true, ◌≡◌,
  refl, sym, ◌∙◌, ap, subst, arith, Bool-cases, inl, inr, In, here, there, In-append, In-filter,
}
use alpha_swarm.Prelude.Maps.{get}
use alpha_swarm.Orchestrator.Task.{SubTask}
use alpha_swarm.Orchestrator.Planner.Cycle.{Mark, unvisited, neighbors, all_unvisited}
use alpha_swarm.Orchestrator.Planner.Cycle.Marks.{get_own, get-some, get-cases}

pub get-all_unvisited :
    (ids : List Text) (id : Text) (m : Mark) → get id (all_unvisited ids) ≡ some m → m ≡ unvisited
get-all_unvisited [] id m e = cc
get-all_unvisited (x ∷ ids) id m e = elim (get-cases x id unvisited m (all_unvisited ids) e) [
  | inl (same, is_m) ↦ sym is_m
  | inr (other, old) ↦ get-all_unvisited ids id m old
]

pub all_unvisited_has :
    (ids : List Text) (id : Text) → In id ids → (m : Mark) × (get id (all_unvisited ids) ≡ some m)
all_unvisited_has [] id i = elim i [ ]
all_unvisited_has (x ∷ ids) id (here e) =
    (unvisited, rw e (get_own x unvisited (all_unvisited ids)))
all_unvisited_has (x ∷ ids) id (there i) =
    let (m, e) = all_unvisited_has ids id i in get-some x id unvisited m (all_unvisited ids) e

module _ (ids : List Text) where
  pub neighbors-In :
      (tasks : List SubTask) (n m : Text)
      → In m (neighbors ids tasks n)
      → (t : SubTask) × In t tasks × (t.id ≡ n) × In m t.depends_on × (contains ids m ≡ true)
  unfolding neighbors
  neighbors-In [] n m i = elim i [ ]
  neighbors-In (t ∷ tasks) n m i = elim (Bool-cases (text_eq t.id n)) [
    | inl same ↦
        elim (In-append m (filter (contains ids) t.depends_on) (neighbors ids tasks n)
          (rw same at i)) [
            | inl own ↦
                let (dep, known) = In-filter (contains ids) m t.depends_on own in
                (t, here refl, (text_eq_iff t.id n).0 same, dep, known)
            | inr more ↦
                let (u, listed, is_n, dep, known) = neighbors-In tasks n m more in
                (u, there listed, is_n, dep, known)
          ]
    | inr other ↦
        let (u, listed, is_n, dep, known) = neighbors-In tasks n m (rw other at i) in
        (u, there listed, is_n, dep, known)
  ]

  contains-filter_known :
      (deps : List Text) (m : Text)
      → In m deps
      → contains ids m ≡ true
      → contains (filter (contains ids) deps) m ≡ true
  contains-filter_known [] m i known = elim i [ ]
  contains-filter_known (d ∷ deps) m (here e) known =
      let kept : contains ids d ≡ true = subst (λ k. contains ids k ≡ true) e known in
      rw (kept, (text_eq_iff d m).1 (sym e)) refl
  contains-filter_known (d ∷ deps) m (there i) known =
      ground (arith, contains-filter_known deps m i known)

  pub contains-neighbors :
      (tasks : List SubTask) (t : SubTask) (m : Text)
      → In t tasks
      → In m t.depends_on
      → contains ids m ≡ true
      → contains (neighbors ids tasks t.id) m ≡ true
  unfolding neighbors
  contains-neighbors [] t m i dep known = elim i [ ]
  contains-neighbors (u ∷ tasks) t m (here e) dep known =
      let own : text_eq u.id t.id ≡ true = (text_eq_iff u.id t.id).1 (ap (λ v. v.id) (sym e)) in
      let deps : contains (filter (contains ids) u.depends_on) m ≡ true =
        contains-filter_known u.depends_on m (subst (λ v. In m v.depends_on) e dep) known in
      rw own (
        contains-append (filter (contains ids) u.depends_on) (neighbors ids tasks t.id) m
        ∙ (rw deps refl))
  contains-neighbors (u ∷ tasks) t m (there i) dep known =
      let later = contains-neighbors tasks t m i dep known in
      elim (Bool-cases (text_eq u.id t.id)) [
        | inl same ↦ rw same (
            contains-append (filter (contains ids) u.depends_on) (neighbors ids tasks t.id) m
            ∙ (ground (arith, later)))
        | inr other ↦ rw other later
      ]
