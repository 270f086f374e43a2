-- ===== src/Client/Autograd/Returned.antt =====
-- What a whole backward pass has done, and that it ends.
use mathlib.Core.Path.{subst}
use subnet_llm_template.Prelude.{
  ℕ, zero, suc, ◌≤◌, ◌<◌, ◌≡◌, refl, sym, Bool, true, false, ◌||◌, none, List, [], ◌∷◌, arith,
  length, ◌==◌, Bool-cases, inl, inr, if◌then◌else◌,
}
use subnet_llm_template.Exec.{pure, ◌>>=◌}
use subnet_llm_template.Exec.Post.{Post, Post-imp, Post-bind}
use subnet_llm_template.Client.Connection.{Span}
use subnet_llm_template.Client.Autograd.{Remote}
use subnet_llm_template.Client.Autograd.Chain.{IsChain, FindsRoutes, Enough}
use subnet_llm_template.Client.Autograd.Backward.{
  Backward, pop_both, backward_attempts, is_nil, backward_spans, sequential_backward,
}
use subnet_llm_template.Client.Autograd.Gradients.{Any, Done, Between, At, Behind, pop_both-At}
use subnet_llm_template.Client.Autograd.Attempted.{backward_attempts-Next}

module _ {A : Type 0} where
  -- When the loop over spans goes on.
  some_left :
      (spans : List Span) (inputs : List A)
      → (is_nil spans || is_nil inputs) ≡ false
      → (span : Span) × (rest : List Span) × (spans ≡ span ∷ rest)
  some_left [] inputs e = absurd (cc)
  some_left (span ∷ rest) inputs e = (span, rest, refl)

  -- When it is over.
  none_left :
      (start b : ℕ) (spans : List Span) (inputs : List A)
      → IsChain start b spans
      → length inputs ≡ length spans
      → (is_nil spans || is_nil inputs) ≡ true
      → start ≡ b
  none_left start b [] inputs chain same e = chain
  none_left start b (span ∷ rest) [] chain same e = absurd (omega (arith, same))
  none_left start b (span ∷ rest) (x ∷ xs) chain same e = absurd (cc)

module _ {remote : Remote} (routes : FindsRoutes remote) (prompts : remote.Tensor)
    (gs : List remote.Tensor) (start end rounds fuel : ℕ) (dummy : Bool) (prompts_length : ℕ)
    (many : end < rounds) (enough : Enough remote fuel 0) where
  abbrev Returned : Bool → Backward remote → Type 0
  Returned passed t = (passed ≡ true) × Done remote prompts gs start end start t.grad_outputs

  after_span :
      (b spans : ℕ) (passed : Bool) (t : Backward remote)
      → (passed ≡ true) × Behind remote prompts gs start end b t
      → ((c : ℕ)
          → c < b
          → Between remote prompts gs start end c t
          → Post Any Returned
              (backward_spans remote rounds fuel dummy prompts_length prompts spans t))
      → Post Any Returned (
          (if passed
              then backward_spans remote rounds fuel dummy prompts_length prompts spans
              else pure false)
            t)
  after_span b spans true t (e, (c, less, between)) again = again c less between
  after_span b spans false t (e, behind) again = absurd (cc)

  -- The loop over spans, from block `b` down.
  backward_spans-Done :
      (b spans : ℕ) (s : Backward remote)
      → b ≤ end
      → b < spans
      → Between remote prompts gs start end b s
      → Post Any Returned (backward_spans remote rounds fuel dummy prompts_length prompts spans s)
  unfolding backward_spans
  backward_spans-Done b zero s le less between = absurd (omega arith)
  backward_spans-Done b (suc spans) s le less (chain, same, done) =
      elim (Bool-cases (is_nil s.forward_sequences || is_nil s.intermediate_inputs)) [
        | inl over ↦ rw over (
          refl,
          subst (λ n. Done remote prompts gs start end n s.grad_outputs)
              (sym (none_left start b s.forward_sequences s.intermediate_inputs chain same over))
              done,
        )
        | inr left ↦
            let (span, rest, e) = some_left s.forward_sequences s.intermediate_inputs left in
            rw left (
              Post-bind Any (λ _. At remote prompts gs start end b) Returned (pop_both remote)
                (λ _.
                  backward_attempts remote rounds fuel dummy prompts_length prompts fuel 0
                  >>= λ passed.
                      if passed
                      then backward_spans remote rounds fuel dummy prompts_length prompts spans
                      else pure false)
                s (pop_both-At prompts gs start end Any b s span rest e (chain, same, done))
                λ _ t at.
                  Post-bind Any
                    (λ passed t. (passed ≡ true) × Behind remote prompts gs start end b t) Returned
                    (backward_attempts remote rounds fuel dummy prompts_length prompts fuel 0)
                    (λ passed.
                      if passed
                      then backward_spans remote rounds fuel dummy prompts_length prompts spans
                      else pure false)
                    t
                    (Post-imp (At remote prompts gs start end b) Any
                      (λ passed t. (passed ≡ true) × Behind remote prompts gs start end b t)
                      (λ passed t. (passed ≡ true) × Behind remote prompts gs start end b t)
                      (backward_attempts remote rounds fuel dummy prompts_length prompts fuel 0 t)
                      (λ u h. tt) (λ passed u h. h)
                      (backward_attempts-Next routes prompts gs start end rounds fuel dummy
                        prompts_length many enough b fuel 0 t le enough at))
                    λ passed u next. after_span b spans passed u next λ c fewer between.
                      backward_spans-Done c spans u (omega arith) (omega arith) between)
      ]

  -- Where the sequence manager finds routes and the number of retries is limited, a backward pass over
  -- spans that follow each other from `start` to `end`, with as many attempts at a span and more rounds
  -- than blocks, never runs out of them. When it returns, there are spans that follow each other from
  -- `start` to `end` exactly, those put in the place of failed ones included, such that the gradients
  -- come from the given ones through the answers of the servers of these spans, the last one first.
  pub sequential_backward-Done :
      (intermediate_inputs : List remote.Tensor) (forward_sequences : List Span)
      (s : Backward remote)
      → start ≤ end
      → IsChain start end forward_sequences
      → Post Any
          (λ passed t. (passed ≡ true) × Done remote prompts gs start end start t.grad_outputs)
          (sequential_backward remote rounds fuel dummy prompts_length prompts gs
            intermediate_inputs forward_sequences s)
  unfolding sequential_backward
  sequential_backward-Done intermediate_inputs forward_sequences s le chain =
      elim (Bool-cases (length intermediate_inputs == length forward_sequences)) [
        | inr bad ↦ rw bad tt
        | inl same ↦ rw same (
            backward_spans-Done end rounds
              (record {
                grad_outputs = gs;
                intermediate_inputs = intermediate_inputs;
                forward_sequences = forward_sequences;
                inputs = none;
                span = none;
                grad_prompts_reversed = [];
                world = s.world;
              })
              (omega arith) many (chain, ground arith, ([], refl, refl)))
      ]
