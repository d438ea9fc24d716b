-- ===== src/Workflow/Model/Splice/Closure.antt =====
-- The `doomed` set is the failed step with its transitive dependents, and its loop ends.
use alpha_swarm.Prelude.{
  ℕ, zero, suc, ◌≤◌, ◌<◌, Text, text_eq, text_eq_iff, text_eq_refl, List, [], ◌∷◌, true, false, not,
  any, count, contains, length, nat_eq, ◌≡◌, ◌⊎◌, inl, inr, ◌↔◌, refl, arith, Bool-cases, In, here,
  there, count-le-length, nat_eq_iff, subst, sym, ◌∙◌,
}
use alpha_swarm.Workflow.Model.Types.{WorkflowStep}
use alpha_swarm.Workflow.Model.Splice.{insert, depends_on_any, sweep, grow, doomed_ids}

-- The failed id, and every step with a dependency on a doomed id.
pub data IsDoomed (steps : List WorkflowStep) (failed : Text) : Text → Type 0 where
  root : IsDoomed steps failed failed
  dependent :
      (s : WorkflowStep) (d : Text)
      → In s steps
      → contains s.task.depends_on d ≡ true
      → IsDoomed steps failed d
      → IsDoomed steps failed s.id

contains-insert :
    (id x : Text) (doomed : List Text)
    → contains (insert id doomed) x ≡ true
    → (text_eq id x ≡ true) ⊎ (contains doomed x ≡ true)
contains-insert id x doomed h = ground arith

grows-insert :
    (id x : Text) (doomed : List Text)
    → contains doomed x ≡ true
    → contains (insert id doomed) x ≡ true
grows-insert id x doomed h = ground arith

sweep_grows :
    (ss : List WorkflowStep) (doomed : List Text) (x : Text)
    → contains doomed x ≡ true
    → contains (sweep ss doomed) x ≡ true
unfolding sweep
sweep_grows [] doomed x h = h
sweep_grows (s ∷ ss) doomed x h = elim (Bool-cases (depends_on_any doomed s)) [
  | inl e ↦ rw e (sweep_grows ss (insert s.id doomed) x (grows-insert s.id x doomed h))
  | inr e ↦ rw e (sweep_grows ss doomed x h)
]

-- A dependency that two lists of texts share, from the test of the loop.
shared_dep :
    (doomed deps : List Text)
    → any (λ d. contains doomed d) deps ≡ true
    → (d : Text) × (contains deps d ≡ true) × (contains doomed d ≡ true)
shared_dep doomed [] h = cc
shared_dep doomed (d ∷ ds) h = elim (Bool-cases (contains doomed d)) [
  | inl e ↦ (d, rw text_eq_refl, e)
  | inr e ↦
      let (d', in_ds, in_doomed) = shared_dep doomed ds (ground arith) in
      (d', ground arith, in_doomed)
]

module _ (steps : List WorkflowStep) (failed : Text) where
  abbrev Sound : List Text → Type 0
  Sound doomed = (x : Text) → contains doomed x ≡ true → IsDoomed steps failed x

  insert-Sound :
      (s : WorkflowStep) (doomed : List Text)
      → In s steps
      → depends_on_any doomed s ≡ true
      → Sound doomed
      → Sound (insert s.id doomed)
  insert-Sound s doomed member dep sound x h =
      let (d, listed, bad) = shared_dep doomed s.task.depends_on dep in
      elim (contains-insert s.id x doomed h) [
        | inl e ↦
            subst (IsDoomed steps failed) ((text_eq_iff s.id x).0 e)
              (dependent s d member listed (sound d bad))
        | inr old ↦ sound x old
      ]

  sweep-Sound :
      (ss : List WorkflowStep) (doomed : List Text)
      → ((s : WorkflowStep) → In s ss → In s steps)
      → Sound doomed
      → Sound (sweep ss doomed)
  unfolding sweep
  sweep-Sound [] doomed sub sound = sound
  sweep-Sound (s ∷ ss) doomed sub sound = elim (Bool-cases (depends_on_any doomed s)) [
    | inl e ↦ rw e (
        sweep-Sound ss (insert s.id doomed) (λ t m. sub t (there m))
          (insert-Sound s doomed (sub s (here refl)) e sound))
    | inr e ↦ rw e (sweep-Sound ss doomed (λ t m. sub t (there m)) sound)
  ]

  grow-Sound : (fuel : ℕ) (doomed : List Text) → Sound doomed → Sound (grow fuel steps doomed)
  unfolding grow
  grow-Sound zero doomed sound = sound
  grow-Sound (suc fuel) doomed sound =
      let next = sweep-Sound steps doomed (λ s m. m) sound in
      elim (Bool-cases (nat_eq (length (sweep steps doomed)) (length doomed))) [
        | inl e ↦ rw e next
        | inr e ↦ rw e (grow-Sound fuel (sweep steps doomed) next)
      ]

  start-Sound : Sound (failed ∷ [])
  start-Sound x h = subst (IsDoomed steps failed) ((text_eq_iff failed x).0 (ground arith)) root

-- The steps that are not doomed yet: what the loop's rounds use up.
abbrev missing : List WorkflowStep → List Text → ℕ
missing ss doomed = count (λ s. not (contains doomed s.id)) ss

missing_mono :
    (ss : List WorkflowStep) (doomed more : List Text)
    → ((x : Text) → contains doomed x ≡ true → contains more x ≡ true)
    → missing ss more ≤ missing ss doomed
missing_mono [] doomed more h = omega arith
missing_mono (s ∷ ss) doomed more h = ground (arith, h s.id, missing_mono ss doomed more h)

record Grew (ss : List WorkflowStep) (doomed after : List Text) : Type 0 where
  fewer : missing ss after < missing ss doomed
  longer : length doomed < length after

length-sweep :
    (ss : List WorkflowStep) (doomed : List Text) → length doomed ≤ length (sweep ss doomed)
unfolding sweep
length-sweep [] doomed = omega arith
length-sweep (s ∷ ss) doomed =
    ground (arith, length-sweep ss doomed, length-sweep ss (s.id ∷ doomed))

module _ (s : WorkflowStep) (ss : List WorkflowStep) (doomed : List Text) where
  -- The step inserts nothing: what the rest of the pass does is what the pass does.
  sweep_past :
      sweep (s ∷ ss) doomed ≡ sweep ss doomed
      → (sweep ss doomed ≡ doomed) ⊎ Grew ss doomed (sweep ss doomed)
      → (sweep (s ∷ ss) doomed ≡ doomed) ⊎ Grew (s ∷ ss) doomed (sweep (s ∷ ss) doomed)
  sweep_past e (inl same) = inl (e ∙ same)
  sweep_past e (inr g) = inr (
      subst (Grew (s ∷ ss) doomed) (sym e)
        (record { fewer = ground (arith, g.fewer, sweep_grows ss doomed s.id); longer = g.longer }))

  sweep_new :
      sweep (s ∷ ss) doomed ≡ sweep ss (s.id ∷ doomed)
      → contains doomed s.id ≡ false
      → Grew (s ∷ ss) doomed (sweep (s ∷ ss) doomed)
  sweep_new e new = subst (Grew (s ∷ ss) doomed) (sym e) (record {
    fewer = ground (
      arith,
      sweep_grows ss (s.id ∷ doomed) s.id,
      text_eq_refl s.id,
      missing_mono ss doomed (sweep ss (s.id ∷ doomed))
          (λ x h. sweep_grows ss (s.id ∷ doomed) x (ground arith)),
    );
    longer = omega (arith, length-sweep ss (s.id ∷ doomed));
  })

-- A pass changes nothing, or it dooms a step that was not doomed.
sweep_cases :
    (ss : List WorkflowStep) (doomed : List Text)
    → (sweep ss doomed ≡ doomed) ⊎ Grew ss doomed (sweep ss doomed)
unfolding sweep
sweep_cases [] doomed = inl refl
sweep_cases (s ∷ ss) doomed = elim (Bool-cases (depends_on_any doomed s)) [
  | inr free ↦ sweep_past s ss doomed (rw free) (sweep_cases ss doomed)
  | inl dep ↦ elim (Bool-cases (contains doomed s.id)) [
    | inl old ↦ sweep_past s ss doomed (rw (dep, old)) (sweep_cases ss doomed)
    | inr new ↦ inr (sweep_new s ss doomed (rw (dep, new)) new)
  ]
]

-- With more fuel than steps that are not doomed, the loop ends by its own test.
grow_ends :
    (fuel : ℕ) (steps : List WorkflowStep) (doomed : List Text)
    → missing steps doomed < fuel
    → sweep steps (grow fuel steps doomed) ≡ grow fuel steps doomed
unfolding grow
grow_ends zero steps doomed h = absurd (omega arith)
grow_ends (suc fuel) steps doomed h = elim (sweep_cases steps doomed) [
  | inl same ↦ simp (same, (nat_eq_iff (length doomed) (length doomed)).1 refl)
  | inr g ↦ elim (Bool-cases (nat_eq (length (sweep steps doomed)) (length doomed))) [
    | inl e ↦ absurd (omega (arith, g.longer, (nat_eq_iff _ _).0 e))
    | inr e ↦ rw e (grow_ends fuel steps (sweep steps doomed) (omega (arith, g.fewer)))
  ]
]

-- After the loop another pass would change nothing.
doomed_ids_closed :
    (failed : Text) (steps : List WorkflowStep)
    → sweep steps (doomed_ids failed steps) ≡ doomed_ids failed steps
unfolding doomed_ids
doomed_ids_closed failed steps =
    grow_ends (suc (length steps)) steps (failed ∷ [])
      (omega (arith, count-le-length (λ s. not (contains (failed ∷ []) s.id)) steps))

pub dep_listed :
    (doomed deps : List Text) (d : Text)
    → contains deps d ≡ true
    → contains doomed d ≡ true
    → any (λ e. contains doomed e) deps ≡ true
dep_listed doomed [] d h k = cc
dep_listed doomed (e ∷ es) d h k = elim (Bool-cases (text_eq e d)) [
  | inl same ↦
      let in_doomed = subst (λ x. contains doomed x ≡ true) (sym ((text_eq_iff e d).0 same)) k in
      rw in_doomed
  | inr other ↦ ground (arith, dep_listed doomed es d)
]

depends_mono :
    (doomed more deps : List Text)
    → ((x : Text) → contains doomed x ≡ true → contains more x ≡ true)
    → any (λ d. contains doomed d) deps ≡ true
    → any (λ d. contains more d) deps ≡ true
depends_mono doomed more [] up h = h
depends_mono doomed more (d ∷ ds) up h = ground (arith, up d, depends_mono doomed more ds up)

-- A pass dooms every step that depends on a doomed id.
sweep_reaches :
    (s : WorkflowStep) (ss : List WorkflowStep) (doomed : List Text)
    → In s ss
    → depends_on_any doomed s ≡ true
    → contains (sweep ss doomed) s.id ≡ true
unfolding sweep
sweep_reaches s [] doomed m dep = elim m [ ]
sweep_reaches s (t ∷ ss) doomed (here e) dep =
    rw (← e) (rw dep (sweep_grows ss (insert s.id doomed) s.id (ground (arith, text_eq_refl s.id))))
sweep_reaches s (t ∷ ss) doomed (there m) dep = elim (Bool-cases (depends_on_any doomed t)) [
  | inr free ↦ rw free (sweep_reaches s ss doomed m dep)
  | inl also ↦ rw also (
      sweep_reaches s ss (insert t.id doomed) m (
        depends_mono doomed (insert t.id doomed) s.task.depends_on (λ x. grows-insert t.id x doomed)
          dep))
]

grow_grows :
    (fuel : ℕ) (steps : List WorkflowStep) (doomed : List Text) (x : Text)
    → contains doomed x ≡ true
    → contains (grow fuel steps doomed) x ≡ true
unfolding grow
grow_grows zero steps doomed x h = h
grow_grows (suc fuel) steps doomed x h =
    let next = sweep_grows steps doomed x h in
    elim (Bool-cases (nat_eq (length (sweep steps doomed)) (length doomed))) [
      | inl e ↦ rw e next
      | inr e ↦ rw e (grow_grows fuel steps (sweep steps doomed) x next)
    ]

module _ (failed : Text) (steps : List WorkflowStep) where
  pub doomed_ids_reach :
      (s : WorkflowStep)
      → In s steps
      → depends_on_any (doomed_ids failed steps) s ≡ true
      → contains (doomed_ids failed steps) s.id ≡ true
  doomed_ids_reach s m dep =
      rw (← doomed_ids_closed failed steps) (sweep_reaches s steps (doomed_ids failed steps) m dep)

  complete : {x : Text} → IsDoomed steps failed x → contains (doomed_ids failed steps) x ≡ true
  complete root =
      unfold doomed_ids in
      grow_grows (suc (length steps)) steps (failed ∷ []) failed
        (ground (arith, text_eq_refl failed))
  complete (dependent s d m listed bad) =
      doomed_ids_reach s m
        (dep_listed (doomed_ids failed steps) s.task.depends_on d listed (complete bad))

  -- An id is in the set that `splice_replan` removes exactly if it is the failed id or the id of a
  -- step that depends on it through any chain of steps.
  pub doomed_ids-iff-IsDoomed :
      (x : Text) → (contains (doomed_ids failed steps) x ≡ true) ↔ IsDoomed steps failed x
  doomed_ids-iff-IsDoomed x = (sound x, complete)
    where
      sound : (x : Text) → contains (doomed_ids failed steps) x ≡ true → IsDoomed steps failed x
      sound =
          unfold doomed_ids in
          grow-Sound steps failed (suc (length steps)) (failed ∷ []) (start-Sound steps failed)
