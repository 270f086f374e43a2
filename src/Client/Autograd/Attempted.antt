-- ===== src/Client/Autograd/Attempted.antt =====
-- What the attempts of a backward pass at one span have done.
use mathlib.Core.Path.{subst}
use subnet_llm_template.Prelude.{
  ℕ, zero, suc, ◌+◌, ◌≤◌, ◌<◌, ◌≡◌, refl, sym, Bool, true, false, List, [], ◌∷◌, ◌++◌, arith, leb,
  Bool-cases, inl, inr, if◌then◌else◌,
}
use subnet_llm_template.Exec.{Result, ok, raised, pure}
use subnet_llm_template.Exec.Post.{Post, Post-bind}
use subnet_llm_template.Client.Connection.{Span}
use subnet_llm_template.Client.Autograd.{Remote, is_last, peer_of}
use subnet_llm_template.Client.Autograd.Chain.{IsChain, FindsRoutes, Enough}
use subnet_llm_template.Client.Autograd.Backward.{
  Backward, update, remotely, restore, backward_through, request, try_backward, backward_failed,
  then_retry, backward_attempts,
}
use subnet_llm_template.Client.Autograd.Gradients.{At, Behind}
use subnet_llm_template.Client.Autograd.Recovery.{restore-At, Post-remotely, at_span, Enough-next}

module _ {remote : Remote} (routes : FindsRoutes remote) (prompts : remote.Tensor)
    (gs : List remote.Tensor) (start end rounds fuel : ℕ) (dummy : Bool) (prompts_length : ℕ)
    (many : end < rounds) (enough : Enough remote fuel 0) where
  abbrev Here : ℕ → Backward remote → Type 0
  Here b s = At remote prompts gs start end b s

  abbrev Again : ℕ → Bool → Backward remote → Type 0
  Again b passed s = (passed ≡ true) × Here b s

  abbrev Next : ℕ → Bool → Backward remote → Type 0
  Next b passed s = (passed ≡ true) × Behind remote prompts gs start end b s

  -- the server of the span has answered
  abbrev Answer :
      Span
      → remote.Tensor
      → Backward remote
      → remote.Tensor × List remote.Tensor
      → Backward remote
      → Type 0
  Answer span inputs s answer t =
      (w : remote.World) × (t ≡ record s { world = w })
      × (remote.backward span inputs s.grad_outputs (remote.prompts_of prompts span.start span.end)
            s.world
          ≡ (ok answer, w))

  through-Behind :
      (b : ℕ) (s : Backward remote)
      → Here b s
      → Post
          (Here b)
          (λ _. Behind remote prompts gs start end b)
          (backward_through remote rounds fuel dummy prompts_length prompts s.span s.inputs s)
  through-Behind b s here =
      let (span, inputs, es, ei, e, less, before, same, done) = here in
      let (spans, chain, derives) = done in
      at_span
        (λ o i.
          Post (Here b) (λ _. Behind remote prompts gs start end b)
            (backward_through remote rounds fuel dummy prompts_length prompts o i s))
        es ei
        (Post-bind (Here b) (λ answer t. Answer span inputs s answer t)
          (λ _. Behind remote prompts gs start end b)
          (remotely (
            remote.backward span inputs s.grad_outputs
              (remote.prompts_of prompts span.start span.end)))
          (λ answer. update (λ s. record s {
            grad_outputs = answer.0 ∷ [];
            grad_prompts_reversed = s.grad_prompts_reversed ++ answer.1;
            world = remote.on_request_success span.peer_id s.world;
          }))
          s
          (Post-remotely (Here b) (λ answer t. Answer span inputs s answer t)
            (remote.backward span inputs s.grad_outputs
              (remote.prompts_of prompts span.start span.end))
            s (λ answer w found. (w, refl, found)) (λ w found. here))
          λ answer t (w, same_state, found). rw same_state (
            span.start,
            less,
            (
              before,
              same,
              (
                span ∷ spans,
                (refl, omega (arith, less, e), subst (λ n. IsChain n end spans) (sym e) chain),
                (s.grad_outputs, answer.0, derives, (inputs, s.world, w, answer.1, found), refl),
              ),
            ),
          ))

  request-Next :
      (b : ℕ) (s : Backward remote)
      → Here b s
      → Post (Here b) (Next b) (request remote rounds fuel dummy prompts_length prompts true s)
  request-Next b s here =
      Post-bind (Here b) (λ _. Behind remote prompts gs start end b) (Next b)
        (backward_through remote rounds fuel dummy prompts_length prompts s.span s.inputs)
        (λ _. pure true) s (through-Behind b s here) λ _ t behind. (refl, behind)

  try_backward-Next :
      (b : ℕ) (s : Backward remote) (attempt_no : ℕ)
      → b ≤ end
      → Here b s
      → Post
          (Here b)
          (Next b)
          (try_backward remote rounds fuel dummy prompts_length prompts attempt_no s)
  unfolding try_backward
  try_backward-Next b s attempt_no le here =
      Post-bind (Here b) (Again b) (Next b)
        (if leb 1 attempt_no
          then restore remote rounds fuel dummy prompts_length prompts s.span s.inputs
          else pure true)
        (request remote rounds fuel dummy prompts_length prompts) s
        (elim (Bool-cases (leb 1 attempt_no)) [
          | inl later ↦ rw later (
              restore-At routes prompts gs start end rounds fuel dummy prompts_length many enough b
                s le here)
          | inr first ↦ rw first (refl, here)
        ])
        λ passed t (given, at).
          subst
            (λ c.
              Post (Here b) (Next b) (request remote rounds fuel dummy prompts_length prompts c t))
            (sym given) (request-Next b t at)

  abbrev GoesOn : ℕ → ℕ → Unit {0} → Backward remote → Type 0
  GoesOn b attempt_no _ s = Here b s × (is_last remote.max_retries attempt_no ≡ false)

  failed-Here :
      (b : ℕ) (s : Backward remote) (attempt_no : ℕ)
      → Here b s
      → Post (Here b) (GoesOn b attempt_no) (backward_failed remote attempt_no s)
  unfolding backward_failed
  failed-Here b s attempt_no here =
      let noted = record s { world = remote.on_request_failure (peer_of s.span) s.world } in
      elim (Bool-cases (is_last remote.max_retries attempt_no)) [
        | inl over ↦ rw over here
        | inr more ↦ rw more (
            Post-remotely (Here b) (GoesOn b attempt_no) (remote.sleep_before_retry attempt_no)
              noted (λ a w e. (here, more)) (λ w e. here))
      ]

  after_attempt :
      (b tries attempt_no : ℕ) (r : Result Bool) (t : Backward remote)
      → ((u : Backward remote)
          → Here b u
          → is_last remote.max_retries attempt_no ≡ false
          → Post (Here b) (Next b) (
              backward_attempts remote rounds fuel dummy prompts_length prompts tries
                (attempt_no + 1)
                u))
      → Post (Here b) (Next b) (r, t)
      → Post (Here b) (Next b) (
          then_retry remote
            (backward_attempts remote rounds fuel dummy prompts_length prompts tries
              (attempt_no + 1))
            attempt_no
            r
            t)
  after_attempt b tries attempt_no (ok passed) t again next = next
  after_attempt b tries attempt_no raised t again here =
      Post-bind (Here b) (GoesOn b attempt_no) (Next b) (backward_failed remote attempt_no)
        (λ _.
          backward_attempts remote rounds fuel dummy prompts_length prompts tries (attempt_no + 1))
        t (failed-Here b t attempt_no here) λ _ u (at, more). again u at more

  pub backward_attempts-Next :
      (b tries attempt_no : ℕ) (s : Backward remote)
      → b ≤ end
      → Enough remote tries attempt_no
      → Here b s
      → Post
          (Here b)
          (Next b)
          (backward_attempts remote rounds fuel dummy prompts_length prompts tries attempt_no s)
  unfolding backward_attempts
  backward_attempts-Next b zero attempt_no s le left here = absurd (omega (arith, left.2, left.3))
  backward_attempts-Next b (suc tries) attempt_no s le left here =
      let (r, t) = try_backward remote rounds fuel dummy prompts_length prompts attempt_no s in
      after_attempt b tries attempt_no r t
        (λ u at more.
          backward_attempts-Next b tries (attempt_no + 1) u le
            (Enough-next remote tries attempt_no more left) at)
        (try_backward-Next b s attempt_no le here)
