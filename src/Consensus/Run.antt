-- ===== src/Consensus/Run.antt =====
-- `run`: one round of the loop, with the loop in which a node that is not the validator waits for
-- the validator's scores. Block numbers are divided as numbers (`int(block_number /
-- self.epoch_length)` is the same below 2 ** 53).
pub mod Waiting
pub mod Adds
pub mod Roles
pub mod Exclusive
use subnet_llm_template.Prelude.{
  ℕ, zero, suc, ◌+◌, ◌-◌, ◌*◌, ◌/◌, ◌%◌, Bool, true, false, ◌&&◌, ◌||◌, not, Option, none, some,
  List, [], ◌∷◌, ◌==◌, ltb, leb, if◌then◌else◌,
}
use subnet_llm_template.Prelude.Int.{pos}
use subnet_llm_template.Exec.{Exec, Result, ok, raised, pure, raise, ◌>>=◌, ◌>>◌, try_or}
use subnet_llm_template.Consensus.Chain.{
  Chain, Node, State, Submission, M, on_chain, node, update, send,
}
use subnet_llm_template.Consensus.Attest.{
  AttestReason, waiting, attested, attest_failed, should_not_attest, attest, validate, has_account,
  is_included, get_validator, get_validator_consensus_submission,
}
use subnet_llm_template.Consensus.Activate.{activate, block_secs}

abbrev pub max_attest_checks : ℕ
max_attest_checks = 3

-- The rounds given to `while True`, which the guard on `attest_checks` leaves well before.
abbrev pub attest_rounds : ℕ
attest_rounds = 100

-- `get_next_epoch_start_block` of src/subnet/substrate/utils.py
unfoldable pub get_next_epoch_start_block : ℕ → ℕ → ℕ
get_next_epoch_start_block epochs_length block = epochs_length + (block - block % epochs_length)

-- The seconds for which a node sleeps that does not agree: up to the latter half of the epoch, if
-- that leaves it at least two blocks' time. `delta` is half the remaining blocks.
unfoldable pub rest_seconds : ℕ → ℕ
rest_seconds remaining =
    if ltb remaining (block_secs * 8) then 0 else remaining * block_secs / 2 - block_secs

-- How a round of the waiting loop ends.
pub data Round : Type 0 where
  again finished : Round

module _ (chain : Chain) where
  abbrev pub sleep : ℕ → M chain.World Unit
  sleep seconds = on_chain (chain.sleep seconds)

  abbrev pub mark_epoch : ℕ → M chain.World Unit
  mark_epoch epoch = update (λ n. record n { last_validated_or_attested_epoch = epoch })

  -- Python raises ZeroDivisionError on an epoch of length 0.
  abbrev pub epoch_of : ℕ → M chain.World ℕ
  epoch_of block_number = do
    self ← node
    if self.epoch_length == 0 then raise else pure (block_number / self.epoch_length)

  abbrev pub remaining_blocks : ℕ → M chain.World ℕ
  remaining_blocks block_number = do
    self ← node
    pure (get_next_epoch_start_block self.epoch_length block_number - block_number)

  abbrev pub after_attest : ℕ → ℕ → Bool × AttestReason → M chain.World Round
  after_attest epoch remaining (true, reason) = do mark_epoch epoch; pure finished
  after_attest epoch remaining (false, waiting) = pure again
  after_attest epoch remaining (false, attest_failed) = pure again
  after_attest epoch remaining (false, attested) = do mark_epoch epoch; pure finished
  after_attest epoch remaining (false, should_not_attest) = do
    sleep (rest_seconds remaining)
    pure again

  -- One round of `while True`, after `attest_checks` attempts.
  unfoldable pub attest_round : ℕ → ℕ → M chain.World Round
  unfolding get_next_epoch_start_block attest rest_seconds
  attest_round initial_epoch attest_checks = do
    sleep block_secs
    block_number ← on_chain chain.get_block_number
    epoch ← epoch_of block_number
    remaining ← remaining_blocks block_number
    if ltb initial_epoch epoch || ltb max_attest_checks attest_checks
        then pure finished
        else (do result ← attest chain epoch true; after_attest epoch remaining result)

  abbrev pub go_on : M chain.World Bool → Round → M chain.World Bool
  go_on rest again = rest
  go_on rest finished = pure true

  -- `while True`, for at most `rounds` rounds; `false` if they do not suffice.
  unfoldable pub attest_loop : ℕ → ℕ → ℕ → M chain.World Bool
  unfolding attest_round
  attest_loop zero initial_epoch attest_checks = pure false
  attest_loop (suc rounds) initial_epoch attest_checks = do
    r ← attest_round initial_epoch attest_checks
    go_on (attest_loop rounds initial_epoch (attest_checks + 1)) r

  abbrev pub after_validate : ℕ → ℕ → Bool → M chain.World Unit
  after_validate epoch remaining true = do mark_epoch epoch; sleep (remaining * block_secs)
  after_validate epoch remaining false = sleep block_secs

  abbrev pub validate_once : ℕ → ℕ → Option Submission → M chain.World Unit
  validate_once epoch remaining none = do
    success ← validate chain
    after_validate epoch remaining success
  validate_once epoch remaining (some _) = do mark_epoch epoch; sleep (remaining * block_secs)

  abbrev pub as_validator : ℕ → ℕ → M chain.World Unit
  as_validator epoch remaining = do
    validated ← get_validator_consensus_submission chain (pos epoch)
    validate_once epoch remaining validated

  abbrev pub as_attestor : ℕ → M chain.World Unit
  as_attestor epoch = do attest_loop attest_rounds epoch 0; pure tt

  abbrev pub with_validator : ℕ → ℕ → Option ℕ → M chain.World Unit
  with_validator epoch remaining none = sleep block_secs
  with_validator epoch remaining (some validator) = do
    self ← node
    if validator == self.account_id then as_validator epoch remaining else as_attestor epoch

  abbrev pub eligible_round : ℕ → ℕ → M chain.World Unit
  eligible_round epoch remaining = do
    validator ← get_validator chain epoch
    with_validator epoch remaining validator

  abbrev pub not_eligible : ℕ → ℕ → M chain.World Unit
  not_eligible epoch remaining = do
    included ← is_included chain
    if included then (do attest chain epoch false; pure tt) else pure tt
    sleep (remaining * block_secs)

  abbrev pub become_eligible : ℕ → ℕ → M chain.World Unit
  become_eligible epoch remaining = do
    self ← node
    nodes ← on_chain (chain.get_submittable_nodes self.subnet_id)
    if has_account self.account_id nodes
        then (do
          update (λ n. record n { subnet_node_eligible = true })
          eligible_round epoch remaining)
        else not_eligible epoch remaining

  abbrev pub after_activation : Bool → M chain.World Unit
  after_activation activated = do
    self ← node
    if self.stop || activated then pure tt else sleep block_secs

  -- The body of `try` in `while not self.stop.is_set()`; `break` and `continue` end it alike, since
  -- a `break` is made only when `stop` is set.
  unfoldable pub iterate : ℕ → M chain.World Unit
  unfolding get_next_epoch_start_block activate has_account attest validate is_included
      get_validator get_validator_consensus_submission attest_loop
  iterate depth = do
    block_number ← on_chain chain.get_block_number
    epoch ← epoch_of block_number
    remaining ← remaining_blocks block_number
    self ← node
    if leb epoch self.last_validated_or_attested_epoch && self.subnet_accepting_consensus
        then sleep (remaining * block_secs)
        else if not self.subnet_accepting_consensus
        then (do activated ← activate chain depth; after_activation activated)
        else if self.subnet_node_eligible
        then eligible_round epoch remaining
        else become_eligible epoch remaining

  -- The loop, for a number of rounds: an exception is logged, and the loop goes on.
  unfoldable pub run : ℕ → ℕ → M chain.World Unit
  unfolding iterate
  run zero depth = pure tt
  run (suc rounds) depth = do
    self ← node
    if self.stop then pure tt else (do try_or (iterate depth) (pure tt); run rounds depth)
