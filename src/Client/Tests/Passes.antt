-- ===== src/Client/Tests/Passes.antt =====
-- Runs of the forward and the backward pass of the client, and their theorems at concrete inputs.
use mathlib.Core.Path.{subst}
use subnet_llm_template.Prelude.{
  ◌+◌, length, ◌<◌, true, ℕ, ◌-◌, ◌≡◌, refl, none, some, List, [], ◌∷◌, ltb, if◌then◌else◌, arith,
}
use subnet_llm_template.Exec.{ok, raised}
use subnet_llm_template.Client.Connection.{Span}
use subnet_llm_template.Exec.Post.{Post}
use subnet_llm_template.Client.Autograd.{Remote, Forward, start_forward, sequential_forward}
use subnet_llm_template.Client.Autograd.Chain.{Held, IsRoute, FindsRoutes}
use subnet_llm_template.Client.Autograd.Whole.{Any, sequential_forward-Held}
use subnet_llm_template.Client.Autograd.Backward.{
  Backward, sequential_backward, backward_spans, backward_attempts, try_backward, backward_failed,
}
use subnet_llm_template.Client.Autograd.Gradients.{Done}
use subnet_llm_template.Client.Autograd.Returned.{sequential_backward-Done}

abbrev two_spans : ℕ → ℕ → List Span
two_spans from to =
    if ltb (from + 1) to
    then record { peer_id = 7; start = from; end = from + 1 }
      ∷ record { peer_id = 9; start = from + 1; end = to + 5 }
      ∷ []
    else record { peer_id = 8; start = from; end = to } ∷ []

-- The gradient that a server gives: its peer id is added.
abbrev add_to : List ℕ → ℕ → ℕ
add_to [] n = n
add_to (grad ∷ _) n = grad + n

-- The world is the number of requests that are still to fail, and a server adds its peer id.
abbrev remote : Remote
remote = record {
  World = ℕ;
  Tensor = ℕ;
  same_shape = λ x y. true;
  prompts_of = λ prompts from to. prompts;
  num_blocks = 4;
  max_retries = some 3;
  make_sequence = λ from to w. (ok (two_spans from to), w);
  forward = λ span x prompts w. if ltb 0 w then (raised, w - 1) else (ok (x + span.peer_id), w);
  backward = λ span x grads prompts w.
      if ltb 0 w then (raised, w - 1) else (ok (add_to grads span.peer_id, prompts ∷ []), w);
  on_request_success = λ peer_id w. w;
  on_request_failure = λ peer_id w. w;
  sleep_before_retry = λ attempt_no w. (ok tt, w);
}

abbrev passing : ℕ → Forward remote
passing w = start_forward remote 100 0 w

forward-retried :
    let (r, t) = sequential_forward remote 5 3 0 4 true 0 100 0 (passing 2) in
    (r ≡ ok true) × (t.inputs ≡ 116) × (t.intermediate_inputs ≡ 100 ∷ 107 ∷ [])
unfolding sequential_forward
forward-retried = (refl, refl, refl)

two_spans-IsRoute : (b e : ℕ) → b < e → IsRoute b e (two_spans b e)
two_spans-IsRoute b e less = ground arith

routes : FindsRoutes remote
routes b e w w' spans less found = subst (λ xs. IsRoute b e xs) (cc) (two_spans-IsRoute b e less)

sequential_forward-Held_example :
    Post
      (Any routes 0 100 0 4)
      (λ passed t. (passed ≡ true) × Held remote 0 100 0 4 t)
      (sequential_forward remote 5 3 0 4 true 0 100 0 (passing 2))
sequential_forward-Held_example =
    sequential_forward-Held routes 0 100 0 4 5 3 0 true (passing 2) (omega arith) (omega arith)
      (3, refl, omega arith, omega arith)

abbrev whole : Span
whole = record { peer_id = 6; start = 0; end = 4 }

abbrev returning : ℕ → Backward remote
returning w = record {
  grad_outputs = [];
  intermediate_inputs = [];
  forward_sequences = [];
  inputs = none;
  span = none;
  grad_prompts_reversed = [];
  world = w;
}

-- The only server fails, and two others take its place.
backward-replaced :
    let (r, t) =
      sequential_backward remote 5 3 true 0 0 (1000 ∷ []) (100 ∷ []) (whole ∷ []) (returning 1) in
    (r ≡ ok true) × (t.grad_outputs ≡ 1016 ∷ []) × (length t.grad_prompts_reversed ≡ 2)
unfolding sequential_backward backward_spans backward_attempts try_backward backward_failed
    sequential_forward
backward-replaced = (refl, refl, refl)

sequential_backward-Done_example :
    Post
      (λ (_ : Backward remote). Unit)
      (λ passed t. (passed ≡ true) × Done remote 0 (1000 ∷ []) 0 4 0 t.grad_outputs)
      (sequential_backward remote 5 3 true 0 0 (1000 ∷ []) (100 ∷ []) (whole ∷ []) (returning 1))
sequential_backward-Done_example =
    sequential_backward-Done routes 0 (1000 ∷ []) 0 4 5 3 true 0 (omega arith)
      (3, refl, omega arith, omega arith) (100 ∷ []) (whole ∷ []) (returning 1) (omega arith)
      (refl, omega arith, refl)
