-- ===== src/Client/Autograd.antt =====
-- `sequential_forward` of src/subnet/client/sequential_autograd.py: the forward pass over a sequence
-- of servers, with a new sequence where one fails.
pub mod Chain
pub mod Attempts
pub mod Whole
pub mod Backward
pub mod Gradients
pub mod Recovery
pub mod Attempted
pub mod Returned
use subnet_llm_template.Prelude.{
  ℕ, zero, suc, ◌+◌, Bool, true, false, ◌||◌, ◌&&◌, Option, none, some, List, [], ◌∷◌, ◌++◌, ◌==◌,
  ltb, leb, if◌then◌else◌,
}
use subnet_llm_template.Exec.{Result, ok, raised, Exec, pure, raise, ◌>>=◌, ◌>>◌}
use subnet_llm_template.Client.Connection.{Span}
use subnet_llm_template.Client.Session.{clip}

-- The servers, the sequence manager and the tensors. Actions may raise. `forward` and `backward` are a
-- request to a server, with what is packed for it; `backward` gives at least the first gradient.
pub record Remote : Type 1 where
  pub World : Type 0
  pub Tensor : Type 0
  pub same_shape : Tensor → Tensor → Bool
  -- `prompts[start : end]`
  pub prompts_of : Tensor → ℕ → ℕ → Tensor
  pub num_blocks : ℕ
  pub max_retries : Option ℕ
  pub make_sequence : ℕ → ℕ → Exec World (List Span)
  pub forward : Span → Tensor → Tensor → Exec World Tensor
  pub backward : Span → Tensor → List Tensor → Tensor → Exec World (Tensor × List Tensor)
  pub on_request_success : ℕ → World → World
  pub on_request_failure : Option ℕ → World → World
  pub sleep_before_retry : ℕ → Exec World (Unit {0})

-- The variables of the loops, and the world.
pub record Forward (remote : Remote) : Type 0 where
  pub block_idx : ℕ
  pub sequences : List Span
  pub span : Option Span
  pub inputs : remote.Tensor
  pub intermediate_inputs : List remote.Tensor
  pub done_sequences : List Span
  pub world : remote.World

abbrev pub is_empty : List Span → Bool
is_empty [] = true
is_empty (_ ∷ _) = false

abbrev pub peer_of : Option Span → Option ℕ
peer_of none = none
peer_of (some span) = some span.peer_id

-- `attempt_no + 1 == max_retries`
abbrev pub is_last : Option ℕ → ℕ → Bool
is_last none attempt_no = false
is_last (some max_retries) attempt_no = attempt_no + 1 == max_retries

module _ (remote : Remote) where
  abbrev pub Pass : Type 0 → Type 0
  Pass A = Exec (Forward remote) A

module _ {remote : Remote} where
  abbrev pub self : Pass remote (Forward remote)
  self s = (ok s, s)

  abbrev pub update : (Forward remote → Forward remote) → Pass remote (Unit {0})
  update f s = (ok tt, f s)

  abbrev pub check : Bool → Pass remote (Unit {0})
  check true = pure tt
  check false = raise

module _ {remote : Remote} {A : Type 0} where
  abbrev pub remotely : Exec remote.World A → Pass remote A
  remotely m s = let (r, w) = m s.world in (r, record s { world = w })

module _ (remote : Remote) where
  -- The new sequence is kept before its last span is cut, which raises if there is none.
  abbrev pub reroute : ℕ → Pass remote (Unit {0})
  reroute end_index = do
    s ← self
    found ← remotely (remote.make_sequence s.block_idx end_index)
    update (λ s. record s { sequences = found })
    clipped ← clip end_index found
    update (λ s. record s { sequences = clipped })

  abbrev pub popleft : List Span → Pass remote Span
  popleft [] = raise
  popleft (span ∷ rest) = do
    update (λ s. record s { sequences = rest; span = some span })
    pure span

  -- What is noted of a span that has been passed.
  abbrev pub pass_span : Span → remote.Tensor → Forward remote → Forward remote
  pass_span span outputs s = record s {
    intermediate_inputs = s.intermediate_inputs ++ (s.inputs ∷ []);
    done_sequences = s.done_sequences ++ (span ∷ []);
    inputs = outputs;
    block_idx = span.end;
    world = remote.on_request_success span.peer_id s.world;
  }

  abbrev pub through : remote.Tensor → Span → Pass remote (Unit {0})
  through prompts span = do
    s ← self
    outputs ←
        remotely (remote.forward span s.inputs (remote.prompts_of prompts span.start span.end))
    check (remote.same_shape outputs s.inputs)
    update (pass_span span outputs)

  -- The body of `try`.
  unfoldable pub try_forward : ℕ → remote.Tensor → ℕ → Pass remote Unit
  try_forward end_index prompts attempt_no = do
    update (λ s. record s { span = none })
    s ← self
    if is_empty s.sequences || leb 1 attempt_no then reroute end_index else pure tt
    s ← self
    span ← popleft s.sequences
    through prompts span

  -- The handler: it raises again after the last attempt.
  unfoldable pub failed : ℕ → Pass remote Unit
  failed attempt_no = do
    update (λ s. record s { world = remote.on_request_failure (peer_of s.span) s.world })
    let sleep = remotely (remote.sleep_before_retry attempt_no)
    if is_last remote.max_retries attempt_no then raise else sleep

  abbrev pub then_again : Pass remote Bool → ℕ → Result (Unit {0}) → Pass remote Bool
  then_again again attempt_no (ok _) = pure true
  then_again again attempt_no raised = do failed attempt_no; again

  -- The attempts from number `attempt_no` on, `fuel` of them at most: `False` if these are not enough.
  unfoldable pub forward_attempts : ℕ → ℕ → remote.Tensor → ℕ → Pass remote Bool
  unfolding try_forward failed
  forward_attempts zero end_index prompts attempt_no s = (ok false, s)
  forward_attempts (suc fuel) end_index prompts attempt_no s =
      let (r, t) = try_forward end_index prompts attempt_no s in
      then_again (forward_attempts fuel end_index prompts (attempt_no + 1)) attempt_no r t

  -- The loop over blocks, with at most `rounds` spans.
  unfoldable pub forward_blocks : ℕ → ℕ → ℕ → remote.Tensor → Pass remote Bool
  unfolding forward_attempts
  forward_blocks zero fuel end_index prompts = pure false
  forward_blocks (suc rounds) fuel end_index prompts = do
    s ← self
    let go_on = do
      passed ← forward_attempts fuel end_index prompts 0
      if passed then forward_blocks rounds fuel end_index prompts else pure false
    if ltb s.block_idx end_index then go_on else pure true

  abbrev pub start_forward : remote.Tensor → ℕ → remote.World → Forward remote
  start_forward inputs start_index world = record {
    block_idx = start_index;
    sequences = [];
    span = none;
    inputs = inputs;
    intermediate_inputs = [];
    done_sequences = [];
    world = world;
  }

  -- `end_index` as given; `dummy` is whether the prompts are none, and `length` how many there are.
  unfoldable pub sequential_forward :
      ℕ → ℕ → ℕ → ℕ → Bool → ℕ → remote.Tensor → remote.Tensor → Pass remote Bool
  unfolding forward_blocks
  sequential_forward rounds fuel start_index end_index dummy length inputs prompts = do
    check (leb end_index remote.num_blocks)
    check (dummy || length == remote.num_blocks)
    update (λ s. start_forward inputs start_index s.world)
    forward_blocks rounds fuel end_index prompts
