-- ===== src/Inference/Witnesses.antt =====
-- The theorems about the router at concrete backends.
use alpha_swarm.Prelude.{
  text, text_eq, [], ◌∷◌, none, some, Bool, if◌then◌else◌, ap, true, false, ◌≡◌, refl, arith, ok,
  is_prefix, In, here, there, nat_eq, Bool-cases, inl, inr,
}
use alpha_swarm.Orchestrator.Task.{Complexity}
use alpha_swarm.Inference.{BackendKind}
use alpha_swarm.Inference.Router.{
  or_no_models, list_models, failed_size, escalate_model, order_by_load, recommend_model,
}
use alpha_swarm.Inference.Router.Chat.{chat}
use alpha_swarm.Inference.Router.Order.{IsOrdered, order_by_load-IsOrdered}
use alpha_swarm.Inference.Router.Counters.{AreWords, SameCounters, chat-SameCounters}
use alpha_swarm.Inference.Router.Escalate.{IsEscalation, escalate_model-IsEscalation}
use alpha_swarm.Inference.Router.Failover.{IsUp, NamesTell}
use alpha_swarm.Inference.Router.Answers.{IsOk, chat-IsOk}
use alpha_swarm.Inference.Samples.{
  numbers, small, large, options, hello, backends, router, messages,
}

program : Unit {0}
unfolding chat escalate_model recommend_model order_by_load text_eq is_prefix
program = tt

-- Equal hosts take turns by the cursor, behind none that is lighter.
turns : (order_by_load numbers backends (0 ∷ 1 ∷ 2 ∷ 3 ∷ []) router).0 ≡ 3 ∷ 1 ∷ 2 ∷ 0 ∷ []
unfolding program
turns = refl

smallest_coder : (recommend_model numbers backends Complexity.simple router).0 ≡ ok small
unfolding program
smallest_coder = refl

larger_coder :
    (escalate_model numbers backends (text "qwen2.5-coder:7b") Complexity.simple router).0
    ≡ ok large
unfolding program
larger_coder = refl

failed_over :
    (chat numbers backends messages options Complexity.simple router).0
    ≡ ok (hello (text "qwen2.5-coder:7b"))
unfolding program
failed_over = refl

router-AreWords : AreWords router
router-AreWords i = elim (Bool-cases (nat_eq i 0)) [ inl e ↦ ground arith | inr e ↦ ground arith ]

backends-IsUp : IsUp backends messages options 1 (small ∷ large ∷ [])
backends-IsUp = record {
  one_of_them = omega arith;
  lists = λ r. refl;
  answers = λ name r. (hello name, refl);
  has_ready = (small, here refl, refl);
}

all_ollama : NamesTell backends (λ name. BackendKind.ollama)
all_ollama idx r m i = listed (nat_eq idx 1) i
  where
    listed :
        (b : Bool)
        → In m (or_no_models (if b then some (small ∷ large ∷ []) else none))
        → m.backend ≡ BackendKind.ollama
    listed true (here e) = ap (λ m. m.backend) e
    listed true (there (here e)) = ap (λ m. m.backend) e
    listed true (there (there i)) = elim i [ ]
    listed false i = elim i [ ]

order_by_load-IsOrdered_example :
    IsOrdered router (0 ∷ 1 ∷ 2 ∷ []) (order_by_load numbers backends (0 ∷ 1 ∷ 2 ∷ []) router)
order_by_load-IsOrdered_example = order_by_load-IsOrdered numbers backends router (0 ∷ 1 ∷ 2 ∷ [])

escalate_model-IsEscalation_example :
    IsEscalation numbers
      (failed_size numbers backends
        (text "qwen2.5-coder:7b")
        (list_models numbers backends router).0)
      (list_models numbers backends router).0
      (escalate_model numbers backends (text "qwen2.5-coder:7b") Complexity.simple router).0
escalate_model-IsEscalation_example =
    escalate_model-IsEscalation numbers backends (text "qwen2.5-coder:7b") Complexity.simple router

chat-SameCounters_example :
    SameCounters router (chat numbers backends messages options Complexity.complex router).1
chat-SameCounters_example =
    chat-SameCounters numbers backends messages options Complexity.complex router
      ((λ idx r h i. refl), λ idx model messages options r h i. refl) router-AreWords

chat-IsOk_example : IsOk (chat numbers backends messages options Complexity.simple router)
chat-IsOk_example =
    chat-IsOk numbers backends messages options Complexity.simple router 1 (small ∷ large ∷ [])
      backends-IsUp (λ name. BackendKind.ollama) all_ollama
