-- ===== src/Orchestrator/Planner/Cycle/Nodes.antt =====
-- The search over all nodes, and why a finished search leaves no cycle.
use alpha_swarm.Prelude.{
  ℕ, ◌≤◌, Text, text_eq, text_eq_iff, contains, List, [], ◌∷◌, Option, some, Bool, true, false, ◌≡◌,
  ◌≢◌, refl, sym, ◌∙◌, ap, subst, arith, Bool-cases, inl, inr, In, here, there, not_both,
}
use alpha_swarm.Prelude.Maps.{get}
use alpha_swarm.Orchestrator.Planner.Cycle.{Mark, unvisited, in_stack, done, Marks, dfs, search}
use alpha_swarm.Orchestrator.Planner.Cycle.Marks.{whites, Run-cases, Mark-cases}
use alpha_swarm.Orchestrator.Planner.Cycle.Search.{
  Leads, edge, via, Sorted, Marked, Finishes, After, After-skip, After-join, dfs-After,
}

module _ (adj : Text → List Text) where
  neighbor_listed :
      (order : List Text) (n m : Text)
      → Sorted adj order
      → contains order n ≡ true
      → In m (adj n)
      → contains order m ≡ true
  neighbor_listed [] n m s h i = cc
  neighbor_listed (x ∷ xs) n m (lone, ahead, s) h i = elim (Bool-cases (text_eq x n)) [
    | inl same ↦
        let later = ahead m (subst (λ k. In m (adj k)) (sym ((text_eq_iff x n).0 same)) i) in
        ground (arith, later)
    | inr other ↦ ground (arith, neighbor_listed xs n m s (rw other at h) i)
  ]

  Leads-listed :
      (order : List Text) (n m : Text)
      → Sorted adj order
      → contains order n ≡ true
      → Leads adj n m
      → contains order m ≡ true
  Leads-listed order n m s h (edge i) = neighbor_listed order n m s h i
  Leads-listed order n m s h (via {m = k} i l) =
      Leads-listed order k m s (neighbor_listed order n k s h i) l

  pub no_cycle :
      (order : List Text) (n : Text)
      → Sorted adj order
      → contains order n ≡ true
      → Leads adj n n
      → ⊥
  no_cycle [] n s h l = cc
  no_cycle (x ∷ xs) n (lone, ahead, s) h l = elim (Bool-cases (text_eq x n)) [
    | inl same ↦
        let e = (text_eq_iff x n).0 same in
        not_both (contains xs x) (after (subst (λ k. Leads adj k k) (sym e) l)) lone
    | inr other ↦ no_cycle xs n s (rw other at h) l
  ]
    where
      after : Leads adj x x → contains xs x ≡ true
      after (edge i) = ahead x i
      after (via {m = k} i l') = Leads-listed xs k x s (ahead k i) l'

  search_next :
      (one : Text → Marks → Option (Bool × Marks)) (id : Text) (ids : List Text) (state : Marks)
      → get id state ≡ some done
      → search one (id ∷ ids) state ≡ search one ids state
  search_next one id ids state e = rw (e, search) refl

  search_found :
      (one : Text → Marks → Option (Bool × Marks)) (id : Text) (ids : List Text)
      (state later : Marks)
      → get id state ≡ some unvisited
      → one id state ≡ some (true, later)
      → search one (id ∷ ids) state ≡ some (true, later)
  search_found one id ids state later e f = rw (e, search, f) refl

  search_finished :
      (one : Text → Marks → Option (Bool × Marks)) (id : Text) (ids : List Text)
      (state later : Marks)
      → get id state ≡ some unvisited
      → one id state ≡ some (false, later)
      → search one (id ∷ ids) state ≡ search one ids later
  search_finished one id ids state later e f = rw (e, search, f) refl

  pub search-After :
      (fuel : ℕ) (ids : List Text) (state : Marks) (order : List Text)
      → Marked adj state order
      → whites state ≤ fuel
      → ((g : Text) → get g state ≢ some in_stack)
      → ((id : Text) → In id ids → (m : Mark) × (get id state ≡ some m))
      → After adj state order ids (search (dfs adj fuel) ids state)
  search-After fuel [] state order marked room empty all = record {
    order' = order;
    marked = marked;
    kept = λ n h. h;
    popped = λ n h. h;
    held = λ n h. h;
    reached = λ n m. elim m [ ];
    fewer = omega arith;
    still = λ n m e. (m, e);
  }
  search-After fuel (id ∷ ids) state order marked room empty all =
      let (mark, e) = all id (here refl) in
      let one = dfs adj fuel in
      let goal = After adj state order (id ∷ ids) in
      elim (Mark-cases mark) [
        | inl white ↦
            let unseen : get id state ≡ some unvisited = e ∙ ap some white in
            let first =
              dfs-After adj fuel id state order marked unseen room
                λ g gray. elim (empty g gray) [ ] in
            elim (Run-cases (one id state)) [
              | inl stuck ↦ elim (subst (After adj state order (id ∷ [])) stuck first) [ ]
              | inr (inl (later, found)) ↦
                  subst goal (sym (search_found one id ids state later unseen found))
                    (subst (After adj state order (id ∷ [])) found first)
              | inr (inr (later, finished)) ↦
                  let f : Finishes adj state order (id ∷ []) later =
                    subst (After adj state order (id ∷ [])) finished first in
                  subst goal (sym (search_finished one id ids state later unseen finished)) (
                    After-join adj state later order ids id (search one ids later) f (
                      search-After fuel ids later f.order' f.marked (omega (arith, f.fewer))
                        (λ g gray. empty g (f.popped g gray))
                        λ j i. let (m, old) = all j (there i) in f.still j m old))
            ]
        | inr (inl gray) ↦ elim (empty id (e ∙ ap some gray)) [ ]
        | inr (inr black) ↦
            let seen : get id state ≡ some done = e ∙ ap some black in
            subst goal (sym (search_next one id ids state seen)) (
              After-skip adj state order ids id (search one ids state) (marked.listed id seen)
                (search-After fuel ids state order marked room empty λ j i. all j (there i)))
      ]
