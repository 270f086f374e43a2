-- ===== src/Client/Autograd/Backward.antt =====
-- `sequential_backward` of src/subnet/client/sequential_autograd.py: the backward pass over the spans of
-- a forward pass, from the last one on, with a new forward pass where a server fails.
use subnet_llm_template.Prelude.{
  ℕ, zero, suc, ◌+◌, Bool, true, false, Option, none, some, List, [], ◌∷◌, ◌++◌, length, ◌==◌, ◌||◌,
  leb, if◌then◌else◌,
}
use subnet_llm_template.Exec.{Result, ok, raised, Exec, pure, raise, ◌>>=◌, ◌>>◌}
use subnet_llm_template.Client.Connection.{Span}
use subnet_llm_template.Client.Autograd.{
  Remote, Forward, is_last, peer_of, start_forward, sequential_forward,
}

-- The variables of the loops, and the world.
pub record Backward (remote : Remote) : Type 0 where
  pub grad_outputs : List remote.Tensor
  pub intermediate_inputs : List remote.Tensor
  pub forward_sequences : List Span
  pub inputs : Option remote.Tensor
  pub span : Option Span
  pub grad_prompts_reversed : List remote.Tensor
  pub world : remote.World

module _ {A : Type 0} where
  abbrev pub put_first : A → Option (List A × A) → List A × A
  put_first x none = ([], x)
  put_first x (some (ys, y)) = (x ∷ ys, y)

  -- `xs.pop()`
  abbrev pub pop_last : List A → Option (List A × A)
  pop_last [] = none
  pop_last (x ∷ xs) = some (put_first x (pop_last xs))

module _ (remote : Remote) where
  abbrev pub Pass : Type 0 → Type 0
  Pass A = Exec (Backward remote) A

module _ {remote : Remote} where
  abbrev pub self : Pass remote (Backward remote)
  self s = (ok s, s)

  abbrev pub update : (Backward remote → Backward remote) → Pass remote (Unit {0})
  update f s = (ok tt, f s)

  abbrev pub check : Bool → Pass remote (Unit {0})
  check true = pure tt
  check false = raise

module _ {remote : Remote} {A : Type 0} where
  abbrev pub remotely : Exec remote.World A → Pass remote A
  remotely m s = let (r, w) = m s.world in (r, record s { world = w })

abbrev pub is_nil : {A : Type 0} → List A → Bool
is_nil [] = true
is_nil (_ ∷ _) = false

-- `spans[0].start == start` and `spans[-1].end == end`
abbrev pub begins_at : ℕ → List Span → Bool
begins_at start [] = false
begins_at start (span ∷ spans) = span.start == start

abbrev pub ends_at : ℕ → Option (List Span × Span) → Bool
ends_at end none = false
ends_at end (some (spans, span)) = span.end == end

module _ (remote : Remote) where
  abbrev take_inputs : Option (List remote.Tensor × remote.Tensor) → Pass remote (Unit {0})
  take_inputs none = raise
  take_inputs (some (rest, inputs)) =
      update (λ s. record s { intermediate_inputs = rest; inputs = some inputs })

  abbrev take_span : Option (List Span × Span) → Pass remote (Unit {0})
  take_span none = raise
  take_span (some (rest, span)) =
      update (λ s. record s { forward_sequences = rest; span = some span })

  -- `inputs = intermediate_inputs.pop()` and `span = forward_sequences.pop()`
  abbrev pub pop_both : Pass remote (Unit {0})
  pop_both s =
      (take_inputs (pop_last s.intermediate_inputs) >> take_span (pop_last s.forward_sequences)) s

  unfoldable pub backward_failed : ℕ → Pass remote Unit
  backward_failed attempt_no = do
    update (λ s. record s { world = remote.on_request_failure (peer_of s.span) s.world })
    let sleep = remotely (remote.sleep_before_retry attempt_no)
    if is_last remote.max_retries attempt_no then raise else sleep

  abbrev pub then_retry : Pass remote Bool → ℕ → Result Bool → Pass remote Bool
  then_retry again attempt_no (ok passed) = pure passed
  then_retry again attempt_no raised = do backward_failed attempt_no; again

module _ (remote : Remote) (rounds fuel : ℕ) (dummy : Bool) (prompts_length : ℕ)
    (prompts : remote.Tensor) where
  -- What the forward pass has given takes the place of the span that failed.
  abbrev take_backup : Span → Bool → Forward remote → Pass remote Bool
  take_backup span false t = pure false
  take_backup span true t = do
    check (length t.intermediate_inputs == length t.done_sequences)
    check (begins_at span.start t.done_sequences)
    check (ends_at span.end (pop_last t.done_sequences))
    update (λ s. record s {
      intermediate_inputs = s.intermediate_inputs ++ t.intermediate_inputs;
      forward_sequences = s.forward_sequences ++ t.done_sequences;
    })
    pop_both remote
    pure true

  abbrev pub after_backup :
      Span → Backward remote → Result Bool × Forward remote → Result Bool × Backward remote
  after_backup span s (raised, t) = (raised, record s { world = t.world })
  after_backup span s (ok passed, t) = take_backup span passed t (record s { world = t.world })

  abbrev pub restore : Option Span → Option remote.Tensor → Pass remote Bool
  restore none inputs s = (raised, s)
  restore (some span) none s = (raised, s)
  restore (some span) (some inputs) s = after_backup span s (
      sequential_forward remote rounds fuel span.start span.end dummy prompts_length inputs prompts
        (start_forward remote inputs span.start s.world))

  abbrev pub backward_through : Option Span → Option remote.Tensor → Pass remote (Unit {0})
  backward_through none inputs = raise
  backward_through (some span) none = raise
  backward_through (some span) (some inputs) = do
    s ← self
    (grad, grad_prompts) ←
        remotely (
          remote.backward span inputs s.grad_outputs
            (remote.prompts_of prompts span.start span.end))
    update (λ s. record s {
      grad_outputs = grad ∷ [];
      grad_prompts_reversed = s.grad_prompts_reversed ++ grad_prompts;
      world = remote.on_request_success span.peer_id s.world;
    })

  abbrev pub request : Bool → Pass remote Bool
  request false = pure false
  request true = do s ← self; backward_through s.span s.inputs; pure true

  -- The body of `try`; `False` if the new forward pass has run out of rounds or attempts.
  unfoldable pub try_backward : ℕ → Pass remote Bool
  unfolding sequential_forward
  try_backward attempt_no = do
    s ← self
    restored ← if leb 1 attempt_no then restore s.span s.inputs else pure true
    request restored

  -- The attempts at one span.
  unfoldable pub backward_attempts : ℕ → ℕ → Pass remote Bool
  unfolding try_backward backward_failed
  backward_attempts zero attempt_no s = (ok false, s)
  backward_attempts (suc tries) attempt_no s =
      let (r, t) = try_backward attempt_no s in
      then_retry remote (backward_attempts tries (attempt_no + 1)) attempt_no r t

  -- The loop over spans.
  unfoldable pub backward_spans : ℕ → Pass remote Bool
  unfolding backward_attempts
  backward_spans zero = pure false
  backward_spans (suc spans) = do
    s ← self
    let go_on = do
      pop_both remote
      passed ← backward_attempts fuel 0
      if passed then backward_spans spans else pure false
    if is_nil s.forward_sequences || is_nil s.intermediate_inputs then pure true else go_on

  -- With the gradients of the outputs, and what the forward pass has kept.
  unfoldable pub sequential_backward :
      List remote.Tensor → List remote.Tensor → List Span → Pass remote Bool
  unfolding backward_spans
  sequential_backward grad_outputs intermediate_inputs forward_sequences = do
    check (length intermediate_inputs == length forward_sequences)
    update (λ s. record s {
      grad_outputs = grad_outputs;
      intermediate_inputs = intermediate_inputs;
      forward_sequences = forward_sequences;
      inputs = none;
      span = none;
      grad_prompts_reversed = [];
    })
    backward_spans rounds
