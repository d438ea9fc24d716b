-- ===== src/Inference/Router/Failover.antt =====
-- A chat through crates/inference-client/src/router.rs while one backend is there to answer.
use alpha_swarm.Prelude.{
  ℕ, zero, suc, ◌+◌, ◌≤◌, ◌<◌, Text, text_eq, List, [], ◌∷◌, Option, none, some, true, false, ◌≡◌,
  refl, sym, ◌∙◌, ap, subst, arith, Bool-cases, inl, inr, In, here, there, In-map, In-map_of,
  In-append, In-left, In-right, nat_eq, nat_eq_iff, count,
}
use alpha_swarm.Inference.{
  BackendKind, same_backend, ModelInfo, ChatMessage, InferenceOptions, InferenceResponse, Numbers,
}
use alpha_swarm.Inference.Router.{InferenceRouter, Backends, or_no_models, tagged, indexed_from}
use alpha_swarm.Inference.Router.Chat.{
  Attempt, answer_or, guarded, try_hosts, fallback_model, fallback_at, fallback_from,
}

-- A backend that lists the same models, one of them ready, and answers, whatever the router's state.
pub record IsUp {W : Type 0} (backends : Backends W) (messages : List ChatMessage)
    (options : InferenceOptions) (idx : ℕ) (models : List ModelInfo) : Type 0 where
  pub one_of_them : idx < backends.backend_count
  pub lists : (r : InferenceRouter W) → (backends.models_of idx r).0 ≡ some models
  pub answers :
      (model : Text) (r : InferenceRouter W)
      → (response : InferenceResponse) × ((backends.ask idx model messages options r).0
          ≡ some response)
  pub has_ready : (m : ModelInfo) × In m models × (m.ready ≡ true)

-- A name belongs to one kind of backend, on every host and at every time.
abbrev pub NamesTell : {W : Type 0} → Backends W → (Text → BackendKind) → Type 0
NamesTell {W} backends kind_of_name =
    (idx : ℕ) (r : InferenceRouter W) (m : ModelInfo)
    → In m (or_no_models (backends.models_of idx r).0)
    → m.backend ≡ kind_of_name m.name

abbrev pub Answered : {W : Type 0} → Attempt W → Type 0
Answered a = (response : InferenceResponse) × (a.0 ≡ some response)

module _ {W : Type 0} where
  pub answer_or-first :
      (a : Attempt W) (next : InferenceRouter W → Attempt W)
      → Answered a
      → Answered (answer_or a next)
  answer_or-first (none, r) next (response, e) = cc
  answer_or-first (some x, r) next h = h

  pub answer_or-second :
      (a : Attempt W) (next : InferenceRouter W → Attempt W)
      → ((r : InferenceRouter W) → Answered (next r))
      → Answered (answer_or a next)
  answer_or-second (none, r) next h = h r
  answer_or-second (some x, r) next h = (x, refl)

pub count-In : (i : ℕ) (xs : List ℕ) → 0 < count (nat_eq i) xs → In i xs
count-In i [] h = let no : ⊥ = omega (arith, h) in elim no [ ]
count-In i (x ∷ xs) h = elim (Bool-cases (nat_eq i x)) [
  | inl same ↦ here ((nat_eq_iff i x).0 same)
  | inr other ↦ there (count-In i xs (ground arith))
]

pub In-count : (i : ℕ) (xs : List ℕ) → In i xs → 0 < count (nat_eq i) xs
In-count i [] h = elim h [ ]
In-count i (x ∷ xs) (here e) = ground (arith, nat_eq_iff i x)
In-count i (x ∷ xs) (there h) = ground (arith, In-count i xs h)

pub same_backend_refl : (b : BackendKind) → same_backend b b ≡ true
same_backend_refl BackendKind.claude = refl
same_backend_refl BackendKind.ollama = refl

module _ {W : Type 0} (numbers : Numbers) (backends : Backends W) (messages : List ChatMessage)
    (options : InferenceOptions) (idx : ℕ) (models : List ModelInfo)
    (up : IsUp backends messages options idx models) (kind_of_name : Text → BackendKind)
    (names : NamesTell backends kind_of_name) where
  abbrev Goal : Attempt W → Type 0
  Goal a = Answered a

  pub indexed_from_lists :
      (left start : ℕ) (r : InferenceRouter W) (m : ModelInfo)
      → start ≤ idx
      → idx < start + left
      → In m models
      → In (idx, m) (indexed_from numbers backends left start r).0
  unfolding indexed_from
  indexed_from_lists zero start r m h k i = let no : ⊥ = omega (arith, h, k) in elim no [ ]
  indexed_from_lists (suc left) start r m h k i = elim (Bool-cases (nat_eq idx start)) [
    | inl same ↦
        let is_start = (nat_eq_iff idx start).0 same in
        let listed : or_no_models (backends.models_of start r).0 ≡ models =
          subst (λ j. or_no_models (backends.models_of j r).0 ≡ models) is_start
            (ap or_no_models (up.lists r)) in
        In-left (idx, m) (tagged start (or_no_models (backends.models_of start r).0)) _
          (subst (λ ms. In (idx, m) (tagged start ms)) (sym listed)
            (subst (λ j. In (idx, m) (tagged j models)) is_start
              (In-map_of (λ x. (idx, x)) m models i)))
    | inr other ↦
        In-right (idx, m) (tagged start (or_no_models (backends.models_of start r).0)) _
          (indexed_from_lists left (suc start) (backends.models_of start r).1 m
            (ground (arith, nat_eq_iff idx start)) (omega (arith, k)) i)
  ]

  pub indexed_from_names :
      (left start : ℕ) (r : InferenceRouter W) (im : ℕ × ModelInfo)
      → In im (indexed_from numbers backends left start r).0
      → im.1.backend ≡ kind_of_name im.1.name
  unfolding indexed_from
  indexed_from_names zero start r im i = elim i [ ]
  indexed_from_names (suc left) start r im i =
      elim (In-append im (tagged start (or_no_models (backends.models_of start r).0)) _ i) [
        | inl now ↦
            let (m, listed, e) =
              In-map (λ x. (start, x)) im (or_no_models (backends.models_of start r).0) now in
            subst (λ jm. jm.1.backend ≡ kind_of_name jm.1.name) (sym e) (names start r m listed)
        | inr later ↦ indexed_from_names left (suc start) (backends.models_of start r).1 im later
      ]

  guarded_answers :
      (model : Text) (r : InferenceRouter W)
      → Answered (guarded numbers backends messages options idx model r)
  unfolding guarded
  guarded_answers model r = up.answers model _

  pub try_hosts_answers :
      (model : Text) (hosts : List ℕ) (r : InferenceRouter W)
      → In idx hosts
      → Answered (try_hosts numbers backends messages options model hosts r)
  unfolding try_hosts
  try_hosts_answers model [] r i = elim i [ ]
  try_hosts_answers model (j ∷ hosts) r (here e) =
      answer_or-first (guarded numbers backends messages options j model r)
        (try_hosts numbers backends messages options model hosts)
        (subst (λ k. Answered (guarded numbers backends messages options k model r)) e
          (guarded_answers model r))
  try_hosts_answers model (j ∷ hosts) r (there i) =
      answer_or-second (guarded numbers backends messages options j model r)
        (try_hosts numbers backends messages options model hosts)
        λ r'. try_hosts_answers model hosts r' i

  fallback_at_passes :
      (j : ℕ) (recommended : Text) (o : Option ModelInfo) (next : InferenceRouter W → Attempt W)
      (r : InferenceRouter W)
      → ((r : InferenceRouter W) → Answered (next r))
      → Answered (fallback_at numbers backends messages options j recommended o next r)
  unfolding fallback_at
  fallback_at_passes j recommended none next r h = h r
  fallback_at_passes j recommended (some m) next r h =
      elim (Bool-cases (text_eq m.name recommended)) [
        | inl tried ↦ rw tried (h r)
        | inr new ↦ rw new (answer_or-second (backends.ask j m.name messages options r) next h)
      ]

  fallback_at_answers :
      (recommended : Text) (m : ModelInfo) (next : InferenceRouter W → Attempt W)
      (r : InferenceRouter W)
      → text_eq m.name recommended ≡ false
      → Answered (fallback_at numbers backends messages options idx recommended (some m) next r)
  unfolding fallback_at
  fallback_at_answers recommended m next r h =
      rw h (answer_or-first (backends.ask idx m.name messages options r) next (up.answers m.name r))

  pub fallback_from_answers :
      (recommended : Text) (m : ModelInfo) (left start : ℕ) (r : InferenceRouter W)
      → fallback_model numbers backends messages options models ≡ some m
      → text_eq m.name recommended ≡ false
      → start ≤ idx
      → idx < start + left
      → Answered (fallback_from numbers backends messages options recommended left start r)
  unfolding fallback_from
  fallback_from_answers recommended m zero start r e f h k =
      let no : ⊥ = omega (arith, h, k) in elim no [ ]
  fallback_from_answers recommended m (suc left) start r e f h k =
      let listed = backends.models_of start r in
      let next = fallback_from numbers backends messages options recommended left (suc start) in
      elim (Bool-cases (nat_eq idx start)) [
        | inl same ↦
            let is_start = (nat_eq_iff idx start).0 same in
            let own : fallback_model numbers backends messages options (or_no_models listed.0)
                ≡ some m =
              subst
                (λ j.
                  fallback_model numbers backends messages options
                    (or_no_models (backends.models_of j r).0)
                  ≡ some m)
                is_start
                (ap (λ o. fallback_model numbers backends messages options (or_no_models o))
                    (up.lists r)
                  ∙ e) in
            subst
              (λ o.
                Answered
                  (fallback_at numbers backends messages options start recommended o next listed.1))
              (sym own)
              (subst
                (λ j. Answered (
                  fallback_at numbers backends messages options j recommended (some m) next
                    listed.1))
                is_start (fallback_at_answers recommended m next listed.1 f))
        | inr other ↦
            fallback_at_passes start recommended
              (fallback_model numbers backends messages options (or_no_models listed.0)) next
              listed.1
              λ r'.
                fallback_from_answers recommended m left (suc start) r' e f
                  (ground (arith, nat_eq_iff idx start)) (omega (arith, k))
      ]
