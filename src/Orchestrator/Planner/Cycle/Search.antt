-- ===== src/Orchestrator/Planner/Cycle/Search.antt =====
-- The search from one node: it finds a cycle, or finishes every node that it reaches.
use alpha_swarm.Prelude.{
  ℕ, zero, suc, ◌≤◌, Text, text_eq, text_eq_iff, contains, List, [], ◌∷◌, Option, none, some, Bool,
  true, false, ◌≡◌, refl, sym, ◌∙◌, ap, subst, arith, Bool-cases, inl, inr, ◌⊎◌, In, here, there,
}
use alpha_swarm.Prelude.Maps.{get, insert, get-insert}
use alpha_swarm.Orchestrator.Planner.Cycle.{Mark, unvisited, in_stack, done, Marks, visit, dfs}
use alpha_swarm.Orchestrator.Planner.Cycle.Marks.{
  whites, whites-insert, whites-insert_unvisited, Run-cases, Mark-cases, get_own, get_other,
  get-cases, get-some, apart,
}

-- What a visit of the next neighbor does, by its mark.
module _ (one : Text → Marks → Option (Bool × Marks)) (n : Text) (ns : List Text)
    (state : Marks) where
  visit_in_stack : get n state ≡ some in_stack → visit one (n ∷ ns) state ≡ some (true, state)
  visit_in_stack e = rw (e, visit) refl

  visit_done : get n state ≡ some done → visit one (n ∷ ns) state ≡ visit one ns state
  visit_done e = rw (e, visit) refl

  visit_found :
      (later : Marks)
      → get n state ≡ some unvisited
      → one n state ≡ some (true, later)
      → visit one (n ∷ ns) state ≡ some (true, later)
  visit_found later e f = rw (e, visit, f) refl

  visit_finished :
      (later : Marks)
      → get n state ≡ some unvisited
      → one n state ≡ some (false, later)
      → visit one (n ∷ ns) state ≡ visit one ns later
  visit_finished later e f = rw (e, visit, f) refl

module _ (adj : Text → List Text) where
  -- At least one edge leads from the first node to the second.
  pub data Leads : Text → Text → Type 0 where
    edge : {n m : Text} → In m (adj n) → Leads n m
    via : {n m k : Text} → In m (adj n) → Leads m k → Leads n k

  abbrev pub HasCycle : Type 0
  HasCycle = (n : Text) × Leads n n

  pub Leads-edge : {g n m : Text} → Leads g n → In m (adj n) → Leads g m
  Leads-edge (edge e) f = via e (edge f)
  Leads-edge (via e l) f = via e (Leads-edge l f)

  -- Each node stands before the nodes that it has edges to.
  abbrev pub Sorted : List Text → Type 0
  Sorted [] = Unit
  Sorted (n ∷ ns) =
      (contains ns n ≡ false) × ((m : Text) → In m (adj n) → contains ns m ≡ true) × Sorted ns

  -- The nodes that are done, in an order, and every neighbor has a mark.
  pub record Marked (state : Marks) (order : List Text) : Type 0 where
    pub sorted : Sorted order
    pub listed : (n : Text) → get n state ≡ some done → contains order n ≡ true
    pub finished : (n : Text) → contains order n ≡ true → get n state ≡ some done
    pub known : (n m : Text) → In m (adj n) → (mark : Mark) × (get m state ≡ some mark)

  -- The search of the nodes `ns` found no cycle: they are done, and the stack is as it was.
  pub record Finishes (state : Marks) (order ns : List Text) (later : Marks) : Type 0 where
    pub order' : List Text
    pub marked : Marked later order'
    pub kept : (n : Text) → contains order n ≡ true → contains order' n ≡ true
    pub popped : (n : Text) → get n later ≡ some in_stack → get n state ≡ some in_stack
    pub held : (n : Text) → get n state ≡ some in_stack → get n later ≡ some in_stack
    pub reached : (n : Text) → In n ns → contains order' n ≡ true
    pub fewer : whites later ≤ whites state
    pub still : (n : Text) (m : Mark) → get n state ≡ some m → (v : Mark) × (get n later ≡ some v)

  abbrev pub After : Marks → List Text → List Text → Option (Bool × Marks) → Type 0
  After state order ns none = ⊥
  After state order ns (some (true, later)) = HasCycle
  After state order ns (some (false, later)) = Finishes state order ns later

  -- Every node of the stack leads to the node.
  abbrev pub Above : Marks → Text → Type 0
  Above state node = (g : Text) → get g state ≡ some in_stack → Leads g node

  abbrev pub Searches : ℕ → (Text → Marks → Option (Bool × Marks)) → Type 0
  Searches fuel one =
      (n : Text) (state : Marks) (order : List Text)
      → Marked state order
      → get n state ≡ some unvisited
      → whites state ≤ fuel
      → Above state n
      → After state order (n ∷ []) (one n state)

  pub After-skip :
      (state : Marks) (order ns : List Text) (n : Text) (r : Option (Bool × Marks))
      → contains order n ≡ true
      → After state order ns r
      → After state order (n ∷ ns) r
  After-skip state order ns n none h a = a
  After-skip state order ns n (some (true, later)) h a = a
  After-skip state order ns n (some (false, later)) h f = record {
    order' = f.order';
    marked = f.marked;
    kept = f.kept;
    popped = f.popped;
    held = f.held;
    reached = λ m i. reached_at m i;
    fewer = f.fewer;
    still = f.still;
  }
    where
      reached_at : (m : Text) → In m (n ∷ ns) → contains f.order' m ≡ true
      reached_at m (here e) = rw e (f.kept n h)
      reached_at m (there i) = f.reached m i

  pub After-join :
      (state mid : Marks) (order ns : List Text) (n : Text) (r : Option (Bool × Marks))
      (f : Finishes state order (n ∷ []) mid)
      → After mid f.order' ns r
      → After state order (n ∷ ns) r
  After-join state mid order ns n none f a = a
  After-join state mid order ns n (some (true, later)) f a = a
  After-join state mid order ns n (some (false, later)) f l = record {
    order' = l.order';
    marked = l.marked;
    kept = λ m h. l.kept m (f.kept m h);
    popped = λ m h. f.popped m (l.popped m h);
    held = λ m h. l.held m (f.held m h);
    reached = λ m i. reached_at m i;
    fewer = omega (arith, l.fewer, f.fewer);
    still = λ m v e. let (w, g) = f.still m v e in l.still m w g;
  }
    where
      reached_at : (m : Text) → In m (n ∷ ns) → contains l.order' m ≡ true
      reached_at m (here e) = l.kept m (f.reached m (here e))
      reached_at m (there i) = l.reached m i

  visit-After :
      (fuel : ℕ) (one : Text → Marks → Option (Bool × Marks)) (node : Text) (ns : List Text)
      (state : Marks) (order : List Text)
      → Searches fuel one
      → ((m : Text) → In m ns → In m (adj node))
      → Marked state order
      → whites state ≤ fuel
      → ((g : Text) → get g state ≡ some in_stack → (g ≡ node) ⊎ Leads g node)
      → After state order ns (visit one ns state)
  visit-After fuel one node [] state order spec sub marked room above = record {
    order' = order;
    marked = marked;
    kept = λ n h. h;
    popped = λ n h. h;
    held = λ n h. h;
    reached = λ n m. elim m [ ];
    fewer = omega arith;
    still = λ n m e. (m, e);
  }
  visit-After fuel one node (n ∷ ns) state order spec sub marked room above =
      let (mark, e) = marked.known node n (sub n (here refl)) in
      let goal = After state order (n ∷ ns) in
      elim (Mark-cases mark) [
        | inl white ↦
            let unseen : get n state ≡ some unvisited = e ∙ ap some white in
            let first =
              spec n state order marked unseen room
                λ g gray. step (above g gray) (sub n (here refl)) in
            elim (Run-cases (one n state)) [
              | inl empty ↦ elim (subst (After state order (n ∷ [])) empty first) [ ]
              | inr (inl (later, found)) ↦
                  subst goal (sym (visit_found one n ns state later unseen found))
                    (subst (After state order (n ∷ [])) found first)
              | inr (inr (later, finished)) ↦
                  let f : Finishes state order (n ∷ []) later =
                    subst (After state order (n ∷ [])) finished first in
                  subst goal (sym (visit_finished one n ns state later unseen finished)) (
                    After-join state later order ns n (visit one ns later) f (
                      visit-After fuel one node ns later f.order' spec (λ m i. sub m (there i))
                        f.marked (omega (arith, f.fewer)) (λ g gray. above g (f.popped g gray))))
            ]
        | inr (inl gray) ↦
            let stacked : get n state ≡ some in_stack = e ∙ ap some gray in
            subst goal (sym (visit_in_stack one n ns state stacked))
              (n, step (above n stacked) (sub n (here refl)))
        | inr (inr black) ↦
            let seen : get n state ≡ some done = e ∙ ap some black in
            subst goal (sym (visit_done one n ns state seen)) (
              After-skip state order ns n (visit one ns state) (marked.listed n seen) (
                visit-After fuel one node ns state order spec (λ m i. sub m (there i)) marked room
                  above))
      ]
    where
      step : {g : Text} → (g ≡ node) ⊎ Leads g node → In n (adj node) → Leads g n
      step (inl e) i = edge (subst (λ k. In n (adj k)) (sym e) i)
      step (inr l) i = Leads-edge l i

  -- The marks while the node is on the stack.
  stack-Marked :
      (n : Text) (state : Marks) (order : List Text)
      → Marked state order
      → get n state ≡ some unvisited
      → Marked (insert n in_stack state) order
  stack-Marked n state order marked white = record {
    sorted = marked.sorted;
    listed = λ q e. elim (get-cases n q in_stack done state e) [
      | inl (same, clash) ↦ cc
      | inr (other, old) ↦ marked.listed q old
    ];
    finished = λ q h.
        let old = marked.finished q h in
        get_other n q in_stack state (apart n q state unvisited done white old λ e. cc) ∙ old;
    known = λ a q i. let (m, e) = marked.known a q i in get-some n q in_stack m state e;
  }

  -- The node's neighbors are done, so it is.
  done-Finishes :
      (n : Text) (state later : Marks) (order : List Text)
      → get n state ≡ some unvisited
      → Finishes (insert n in_stack state) order (adj n) later
      → Finishes state order (n ∷ []) (insert n done later)
  done-Finishes n state later order white f = record {
    order' = n ∷ f.order';
    marked = record {
      sorted = (unlisted, f.reached, f.marked.sorted);
      listed = λ q e. elim (get-cases n q done done later e) [
        | inl (same, is_done) ↦ rw ((text_eq_iff n q).1 same) refl
        | inr (other, old) ↦ rw other (f.marked.listed q old)
      ];
      finished = λ q h. elim (Bool-cases (text_eq n q)) [
        | inl same ↦ get-insert n q done later ∙ (rw same refl)
        | inr other ↦ get_other n q done later other ∙ f.marked.finished q (rw other at h)
      ];
      known = λ a q i. let (m, e) = f.marked.known a q i in get-some n q done m later e;
    };
    kept = λ q h. ground (arith, f.kept q h);
    popped = λ q e. elim (get-cases n q done in_stack later e) [
      | inl (same, clash) ↦ cc
      | inr (other, old) ↦ sym (get_other n q in_stack state other) ∙ f.popped q old
    ];
    held = λ q e.
        let other = apart n q state unvisited in_stack white e λ d. cc in
        get_other n q done later other ∙ f.held q (get_other n q in_stack state other ∙ e);
    reached = λ q i. reached_at q i;
    still = λ q m e.
        let (v, g) = get-some n q in_stack m state e in
        let (w, k) = f.still q v g in get-some n q done w later k;
    fewer = omega (
      arith,
      f.fewer,
      whites-insert n in_stack done later stacked refl,
      whites-insert n unvisited in_stack state white refl,
    );
  }
    where
      stacked : get n later ≡ some in_stack
      stacked = f.held n (get_own n in_stack state)

      unlisted : contains f.order' n ≡ false
      unlisted = elim (Bool-cases (contains f.order' n)) [
        | inl listed ↦ cc (f.marked.finished n listed, stacked)
        | inr no_place ↦ no_place
      ]

      reached_at : (q : Text) → In q (n ∷ []) → contains (n ∷ f.order') q ≡ true
      reached_at q (here e) = rw ((text_eq_iff n q).1 (sym e)) refl
      reached_at q (there i) = elim i [ ]

  dfs_found :
      (fuel : ℕ) (n : Text) (state later : Marks)
      → visit (dfs adj fuel) (adj n) (insert n in_stack state) ≡ some (true, later)
      → dfs adj (suc fuel) n state ≡ some (true, later)
  unfolding dfs
  dfs_found fuel n state later e = rw (e, dfs) refl

  dfs_finished :
      (fuel : ℕ) (n : Text) (state later : Marks)
      → visit (dfs adj fuel) (adj n) (insert n in_stack state) ≡ some (false, later)
      → dfs adj (suc fuel) n state ≡ some (false, insert n done later)
  unfolding dfs
  dfs_finished fuel n state later e = rw (e, dfs) refl

  pub dfs-After : (fuel : ℕ) → Searches fuel (dfs adj fuel)
  dfs-After zero n state order marked white room above =
      absurd (omega (arith, whites-insert_unvisited n in_stack state white refl))
  dfs-After (suc fuel) n state order marked white room above =
      let stacked = insert n in_stack state in
      let r = visit (dfs adj fuel) (adj n) stacked in
      let a =
        visit-After fuel (dfs adj fuel) n (adj n) stacked order (dfs-After fuel) (λ m i. i)
          (stack-Marked n state order marked white)
          (omega (arith, whites-insert_unvisited n in_stack state white refl))
          (λ g gray. above_or_here g gray) in
      let goal = After state order (n ∷ []) in
      elim (Run-cases r) [
        | inl empty ↦ elim (subst (After stacked order (adj n)) empty a) [ ]
        | inr (inl (later, found)) ↦
            subst goal (sym (dfs_found fuel n state later found))
              (subst (After stacked order (adj n)) found a)
        | inr (inr (later, finished)) ↦
            subst goal (sym (dfs_finished fuel n state later finished)) (
              done-Finishes n state later order white
                (subst (After stacked order (adj n)) finished a))
      ]
    where
      above_or_here :
          (g : Text) → get g (insert n in_stack state) ≡ some in_stack → (g ≡ n) ⊎ Leads g n
      above_or_here g gray = elim (get-cases n g in_stack in_stack state gray) [
        | inl (same, e) ↦ inl (sym same)
        | inr (other, old) ↦ inr (above g old)
      ]
