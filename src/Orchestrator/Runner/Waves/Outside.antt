-- ===== src/Orchestrator/Runner/Waves/Outside.antt =====
-- The waves of a call see only the call's own tasks: a dependency on any other task is never met.
use alpha_swarm.Prelude.{
  ℕ, zero, suc, ◌+◌, Text, text_eq, text_eq_iff, contains, List, [], ◌∷◌, Option, none, some, Bool,
  true, false, not, ◌&&◌, ◌||◌, ltb, length, all, any, take, ◌≡◌, refl, sym, ◌∙◌, ap, subst, arith,
  Bool-cases, Option-cases, inl, inr, Result, ok, err, if◌then◌else◌, if_some-cases,
}
use alpha_swarm.Orchestrator.Task.{SubTask}
use alpha_swarm.Orchestrator.Runner.Types.{AgentResult, TaskRunResult}
use alpha_swarm.Orchestrator.Runner.Control.{ControlState, continue}
use alpha_swarm.Orchestrator.Runner.Waves.{
  Completed, ids, done_ids, insert_result, task_map, Agents, is_unblocked, ready, collect,
  WavesResult, finished, failed, out_of_fuel, create_all, run_wave, waves,
}

-- A task of the call has a dependency on a task outside it.
abbrev pub has_outside : List SubTask → SubTask → Bool
has_outside tasks t = any (λ d. not (contains (ids tasks) d)) t.depends_on

done_ids-insert_result :
    (r : TaskRunResult) (c : Completed) (q : Text)
    → contains (done_ids (insert_result r c)) q ≡ (text_eq r.task.id q || contains (done_ids c) q)
unfolding insert_result
done_ids-insert_result r [] q = refl
done_ids-insert_result r (s ∷ c) q =
    ground (arith, done_ids-insert_result r c q, text_eq_iff s.task.id r.task.id)

done_ids-collect :
    (t : SubTask) (o : Option (Result Text AgentResult)) (c : Completed) (q : Text)
    → contains (done_ids (collect t o c)) q ≡ true
    → (text_eq t.id q || contains (done_ids c) q) ≡ true
unfolding collect
done_ids-collect t none c q h = ground arith
done_ids-collect t (some (ok a)) c q h = sym (done_ids-insert_result _ c q) ∙ h
done_ids-collect t (some (err e)) c q h = sym (done_ids-insert_result _ c q) ∙ h

task_map_id :
    (tasks : List SubTask) (id : Text) (t : SubTask)
    → task_map tasks id ≡ some t
    → (t.id ≡ id) × (contains (ids tasks) id ≡ true)
unfolding task_map
task_map_id [] id t e = cc
task_map_id (s ∷ tasks) id t e = elim (Option-cases (task_map tasks id)) [
  | inl earlier ↦
      elim (if_some-cases (text_eq s.id id) s t none (
        subst
          (λ o.
            elim o [ some later ↦ some later | none ↦ if text_eq s.id id then some s else none ]
            ≡ some t)
          earlier e)) [
            | inl (same, is_t) ↦
                (ap (λ u. u.id) (sym is_t) ∙ (text_eq_iff s.id id).0 same, rw same refl)
            | inr (other, absurd) ↦ cc
          ]
  | inr (u, found) ↦
      let later =
        subst
          (λ o.
            elim o [ some later ↦ some later | none ↦ if text_eq s.id id then some s else none ]
            ≡ some t)
          found e in
      let is_t : u ≡ t = cc in
      let (same, listed) = task_map_id tasks id t (found ∙ ap some is_t) in
      (same, ground (arith, listed))
]

contains-take :
    (n : ℕ) (xs : List Text) (q : Text) → contains (take n xs) q ≡ true → contains xs q ≡ true
contains-take zero xs q h = cc
contains-take (suc n) [] q h = h
contains-take (suc n) (x ∷ xs) q h = ground (arith, contains-take n xs q)

contains-ready :
    (c : Completed) (tasks : List SubTask) (q : Text)
    → contains (ready c tasks) q ≡ any (λ t. text_eq t.id q && is_unblocked c t) tasks
unfolding ready
contains-ready c [] q = refl
contains-ready c (t ∷ tasks) q = ground (arith, contains-ready c tasks q)

-- Every task with the id has a dependency outside the call.
abbrev pub is_blocked : List SubTask → Text → List SubTask → Bool
is_blocked tasks q ts = all (λ t. not (text_eq t.id q) || has_outside tasks t) ts

-- The id has no result.
abbrev pub HasNone : Text → WavesResult → Type 0
HasNone q (finished c halted) = contains (done_ids c) q ≡ false
HasNone q (failed e) = Unit
HasNone q out_of_fuel = Unit

module _ (agents : Agents) (max_concurrent : ℕ) (tasks : List SubTask) where
  run_wave-done_ids :
      (wave : ℕ) (chosen : List Text) (c : Completed) (q : Text)
      → contains (done_ids (run_wave agents max_concurrent tasks wave chosen c)) q ≡ true
      → ((contains chosen q && contains (ids tasks) q) || contains (done_ids c) q) ≡ true
  unfolding run_wave
  run_wave-done_ids wave [] c q h = ground arith
  run_wave-done_ids wave (id ∷ chosen) c q h = elim (Option-cases (task_map tasks id)) [
    | inl unknown ↦ ground (arith, run_wave-done_ids wave chosen c q (rw unknown at h))
    | inr (t, known) ↦
        let (same, listed) = task_map_id tasks id t known in
        let here : text_eq id q ≡ true → contains (ids tasks) q ≡ true =
          λ e. subst (λ i. contains (ids tasks) i ≡ true) ((text_eq_iff id q).0 e) listed in
        ground (
          arith,
          run_wave-done_ids wave chosen (collect t (agents.run wave t) c) q (rw known at h),
          done_ids-collect t (agents.run wave t) c q,
          ap (λ i. text_eq i q) same,
          here,
        )
  ]

  unmet :
      (c : Completed) (deps : List Text)
      → ((id : Text) → contains (done_ids c) id ≡ true → contains (ids tasks) id ≡ true)
      → any (λ d. not (contains (ids tasks) d)) deps ≡ true
      → all (λ d. contains (done_ids c) d) deps ≡ false
  unmet c [] only h = cc
  unmet c (d ∷ deps) only h = ground (arith, only d, unmet c deps only)

  -- The results so far are for tasks of the call, and `q` has none.
  record IsLacking (q : Text) (c : Completed) : Type 0 where
    only : (id : Text) → contains (done_ids c) id ≡ true → contains (ids tasks) id ≡ true
    lacks : contains (done_ids c) q ≡ false

  never_ready :
      (q : Text) (c : Completed) (ts : List SubTask)
      → IsLacking q c
      → is_blocked tasks q ts ≡ true
      → any (λ t. text_eq t.id q && is_unblocked c t) ts ≡ false
  unfolding is_unblocked
  never_ready q c [] lacking h = refl
  never_ready q c (t ∷ ts) lacking h =
      ground (arith, unmet c t.depends_on lacking.only, lacking.lacks, never_ready q c ts lacking)

  run_wave-IsLacking :
      (wave n : ℕ) (q : Text) (c : Completed)
      → IsLacking q c
      → is_blocked tasks q tasks ≡ true
      → IsLacking q (run_wave agents max_concurrent tasks wave (take n (ready c tasks)) c)
  run_wave-IsLacking wave n q c lacking h = record {
    only = λ id e.
        ground (arith, run_wave-done_ids wave (take n (ready c tasks)) c id e, lacking.only id);
    lacks = ground (
      arith,
      run_wave-done_ids wave (take n (ready c tasks)) c q,
      lacking.lacks,
      contains-take n (ready c tasks) q,
      contains-ready c tasks q,
      never_ready q c tasks lacking h,
    );
  }

  waves-HasNone :
      (fuel wave : ℕ) (q : Text) (c : Completed)
      → IsLacking q c
      → is_blocked tasks q tasks ≡ true
      → HasNone q (waves agents max_concurrent tasks fuel wave c)
  unfolding waves
  waves-HasNone zero wave q c lacking h = tt
  waves-HasNone (suc fuel) wave q c lacking h = elim (Bool-cases (ltb (length c) (length tasks))) [
    | inl more ↦ rw more (
        at_control
          (waves-HasNone fuel (wave + 1) q (run_wave agents max_concurrent tasks wave chosen c)
            (run_wave-IsLacking wave max_concurrent q c lacking h) h)
          (agents.control wave))
    | inr all_done ↦ rw all_done lacking.lacks
  ]
    where
      chosen : List Text
      chosen = take max_concurrent (ready c tasks)

      rest : WavesResult
      rest =
          waves agents max_concurrent tasks fuel (wave + 1)
            (run_wave agents max_concurrent tasks wave chosen c)

      created :
          HasNone q rest
          → (o : Option Text) → HasNone q (elim o [ some e ↦ failed e | none ↦ rest ])
      created later none = later
      created later (some e) = tt

      at_ready :
          HasNone q rest
          → (r : List Text)
          → HasNone q (elim r [
            | [] ↦ finished c false
            | _ ∷ _ ↦ elim (create_all agents max_concurrent tasks wave chosen) [
              | some e ↦ failed e
              | none ↦ rest
            ]
          ])
      at_ready later [] = lacking.lacks
      at_ready later (x ∷ xs) = created later (create_all agents max_concurrent tasks wave chosen)

      at_control :
          HasNone q rest
          → (k : ControlState)
          → HasNone q (elim k [
            | continue ↦ elim (ready c tasks) [
              | [] ↦ finished c false
              | _ ∷ _ ↦ elim (create_all agents max_concurrent tasks wave chosen) [
                | some e ↦ failed e
                | none ↦ rest
              ]
            ]
            | _ ↦ finished c true
          ])
      at_control later continue = at_ready later (ready c tasks)
      at_control later _ = lacking.lacks

-- If every task of the call that has the id depends on some task outside the call, then no result
-- has the id, however the waves end and whatever the agents do: the results of earlier calls do not
-- count.
pub waves_outside :
    (agents : Agents) (max_concurrent fuel : ℕ) (tasks : List SubTask) (q : Text)
    → is_blocked tasks q tasks ≡ true
    → HasNone q (waves agents max_concurrent tasks fuel 0 [])
waves_outside agents max_concurrent fuel tasks q h =
    waves-HasNone agents max_concurrent tasks fuel 0 q []
      (record { only = λ id e. cc; lacks = refl }) h
