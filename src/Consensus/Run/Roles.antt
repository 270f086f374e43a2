-- ===== src/Consensus/Run/Roles.antt =====
-- The transactions that the parts of one round of `run` send.
use subnet_llm_template.Prelude.{
  ℕ, zero, suc, ◌+◌, ◌*◌, ◌-◌, ◌/◌, Bool, true, false, ◌&&◌, ◌||◌, Option, none, some, arith,
  if◌then◌else◌, ◌==◌, ltb, ◌≡◌, Bool-cases, inl, inr,
}
use subnet_llm_template.Prelude.Int.{pos}
use subnet_llm_template.Exec.{pure, ◌>>=◌}
use subnet_llm_template.Exec.Keeps.{Keeps, Keeps-pure, Keeps-raise, Keeps-if, Keeps-bind}
use subnet_llm_template.Consensus.Chain.{
  Chain, Submission, validation, attestation, M, on_chain, node, send,
}
use subnet_llm_template.Consensus.Attest.{
  AttestReason, waiting, attested, attest_failed, should_not_attest, attest, attest_if,
  attest_submission, check_submittable, do_attest, should_attest, validate, has_account,
  is_included, get_consensus_data, get_validator, get_validator_consensus_submission,
}
use subnet_llm_template.Consensus.Attest.Safety.{
  sent_of, node-Keeps, update-Keeps, on_chain-Keeps, should_attest-Keeps,
}
use subnet_llm_template.Consensus.Run.Adds.{
  Adds, Adds-quiet, Adds-if, Adds-weaken, Adds-try_or, Adds-bind, Adds-then, Adds-validation,
  Adds-attestation,
}
use subnet_llm_template.Consensus.Run.{
  Round, again, finished, attest_round, attest_loop, go_on, max_attest_checks, attest_rounds,
  epoch_of, remaining_blocks, after_attest, sleep, mark_epoch, rest_seconds, after_validate,
  validate_once, as_validator, as_attestor, get_next_epoch_start_block,
}
use subnet_llm_template.Consensus.Activate.{block_secs}

module _ (chain : Chain) where
  pub epoch_of-Keeps : (block : ℕ) → Keeps sent_of (epoch_of chain block)
  epoch_of-Keeps block = Keeps-bind sent_of node _ node-Keeps (λ self.
      Keeps-if sent_of (self.epoch_length == 0) _ _ (Keeps-raise sent_of)
        (Keeps-pure sent_of (block / self.epoch_length)))

  pub remaining_blocks-Keeps : (block : ℕ) → Keeps sent_of (remaining_blocks chain block)
  remaining_blocks-Keeps block =
      Keeps-bind sent_of node _ node-Keeps
        (λ self. Keeps-pure sent_of (get_next_epoch_start_block self.epoch_length block - block))

  pub sleep-Keeps : (seconds : ℕ) → Keeps sent_of (sleep chain seconds)
  sleep-Keeps seconds = on_chain-Keeps (chain.sleep seconds)

  get_consensus_data-Keeps : Keeps sent_of (get_consensus_data chain)
  unfolding get_consensus_data
  get_consensus_data-Keeps =
      Keeps-bind sent_of node _ node-Keeps
        (λ self. on_chain-Keeps (chain.get_consensus_data self.subnet_id))

  get_submission-Keeps :
      (epoch : ℕ) → Keeps sent_of (get_validator_consensus_submission chain (pos epoch))
  unfolding get_validator_consensus_submission
  get_submission-Keeps epoch =
      Keeps-bind sent_of node _ node-Keeps
        (λ self. on_chain-Keeps (chain.get_rewards_submission self.subnet_id (pos epoch)))

  pub get_validator-Keeps : (epoch : ℕ) → Keeps sent_of (get_validator chain epoch)
  unfolding get_validator
  get_validator-Keeps epoch =
      Keeps-bind sent_of node _ node-Keeps
        (λ self. on_chain-Keeps (chain.get_rewards_validator self.subnet_id epoch))

  pub is_included-Keeps : Keeps sent_of (is_included chain)
  unfolding is_included
  is_included-Keeps = Keeps-bind sent_of node _ node-Keeps (λ self.
      Keeps-bind sent_of (on_chain (chain.get_included_nodes self.subnet_id)) _
        (on_chain-Keeps (chain.get_included_nodes self.subnet_id))
        (λ nodes. Keeps-pure sent_of (has_account self.account_id nodes)))

  do_attest-Adds : Adds 0 1 (do_attest chain)
  unfolding do_attest
  do_attest-Adds =
      Adds-try_or 0 1 _ (pure false)
        (Adds-then 0 1 node _ node-Keeps (λ self.
          Adds-bind 0 1 0 0 (send attestation) (λ _. on_chain (chain.attest self.subnet_id))
            Adds-attestation
            (λ _. Adds-quiet 0 0 _ (on_chain-Keeps (chain.attest self.subnet_id)))))
        (Adds-quiet 0 0 (pure false) (Keeps-pure sent_of false))

  attest_if-Adds : (b : Bool) → Adds 0 1 (attest_if chain b)
  attest_if-Adds false = Adds-quiet 0 1 _ (Keeps-pure sent_of (false, should_not_attest))
  attest_if-Adds true = Adds-bind 0 1 0 0 (do_attest chain) _ do_attest-Adds (λ success.
      Adds-quiet 0 0 _
        (Keeps-pure sent_of (if success then (true, attested) else (false, attest_failed))))

  attest_submission-Adds :
      (epoch : ℕ) (wanted : Bool) (o : Option Submission)
      → Adds 0 1 (attest_submission chain epoch wanted o)
  attest_submission-Adds epoch wanted none = Adds-quiet 0 1 _ (Keeps-pure sent_of (false, waiting))
  attest_submission-Adds epoch wanted (some submission) = Adds-then 0 1 node _ node-Keeps (λ self.
      Adds-if 0 1 (has_account self.account_id submission.attests) _ _
        (Adds-quiet 0 1 _ (Keeps-pure sent_of (false, attested)))
        (Adds-then 0 1 (get_consensus_data chain) _ get_consensus_data-Keeps (λ scores.
          Adds-then 0 1 (check_submittable chain true wanted) _ (Keeps-pure sent_of tt) (λ _.
            Adds-then 0 1 (should_attest chain submission.scores scores epoch) _
              (should_attest-Keeps chain submission.scores scores epoch)
              (λ should. attest_if-Adds (should && wanted))))))

  pub attest-Adds : (epoch : ℕ) (wanted : Bool) → Adds 0 1 (attest chain epoch wanted)
  unfolding attest
  attest-Adds epoch wanted =
      Adds-then 0 1 (get_validator_consensus_submission chain (pos epoch)) _
        (get_submission-Keeps epoch) (λ o. attest_submission-Adds epoch wanted o)

  validate-Adds : Adds 1 0 (validate chain)
  unfolding validate
  validate-Adds = Adds-then 1 0 (get_consensus_data chain) _ get_consensus_data-Keeps (λ scores.
      Adds-try_or 1 0 _ (pure false)
        (Adds-then 1 0 node _ node-Keeps (λ self.
          Adds-bind 1 0 0 0 (send (validation scores))
            (λ _. on_chain (chain.validate self.subnet_id scores)) (Adds-validation scores)
            (λ _. Adds-quiet 0 0 _ (on_chain-Keeps (chain.validate self.subnet_id scores)))))
        (Adds-quiet 0 0 (pure false) (Keeps-pure sent_of false)))

  after_attest-Keeps :
      (epoch remaining : ℕ) (p : Bool × AttestReason)
      → Keeps sent_of (after_attest chain epoch remaining p)
  after_attest-Keeps epoch remaining (true, reason) =
      Keeps-bind sent_of (mark_epoch chain epoch) _
        (update-Keeps (λ n. record n { last_validated_or_attested_epoch = epoch }))
        (λ _. Keeps-pure sent_of finished)
  after_attest-Keeps epoch remaining (false, waiting) = Keeps-pure sent_of again
  after_attest-Keeps epoch remaining (false, attest_failed) = Keeps-pure sent_of again
  after_attest-Keeps epoch remaining (false, attested) =
      Keeps-bind sent_of (mark_epoch chain epoch) _
        (update-Keeps (λ n. record n { last_validated_or_attested_epoch = epoch }))
        (λ _. Keeps-pure sent_of finished)
  after_attest-Keeps epoch remaining (false, should_not_attest) =
      Keeps-bind sent_of (sleep chain (rest_seconds remaining)) _
        (sleep-Keeps (rest_seconds remaining)) (λ _. Keeps-pure sent_of again)

  attest_round-Adds : (initial checks : ℕ) → Adds 0 1 (attest_round chain initial checks)
  unfolding attest_round
  attest_round-Adds initial checks =
      Adds-then 0 1 (sleep chain block_secs) _ (sleep-Keeps block_secs) (λ _.
        Adds-then 0 1 (on_chain chain.get_block_number) _ (on_chain-Keeps chain.get_block_number)
          (λ block. Adds-then 0 1 (epoch_of chain block) _ (epoch_of-Keeps block) (λ epoch.
            Adds-then 0 1 (remaining_blocks chain block) _ (remaining_blocks-Keeps block)
              (λ remaining.
                Adds-if 0 1 (ltb initial epoch || ltb max_attest_checks checks) _ _
                  (Adds-quiet 0 1 _ (Keeps-pure sent_of finished))
                  (Adds-bind 0 1 0 0 (attest chain epoch true) _ (attest-Adds epoch true)
                    (λ p. Adds-quiet 0 0 _ (after_attest-Keeps epoch remaining p)))))))

  go_on-Adds :
      (q : ℕ) (rest : M chain.World Bool) (r : Round)
      → Adds 0 q rest
      → Adds 0 q (go_on chain rest r)
  go_on-Adds q rest again h = h
  go_on-Adds q rest finished h = Adds-quiet 0 q _ (Keeps-pure sent_of true)

  -- A round after more than `max_attest_checks` attempts sends nothing.
  attest_round-quiet :
      (initial checks : ℕ)
      → ltb max_attest_checks checks ≡ true
      → Keeps sent_of (attest_round chain initial checks)
  unfolding attest_round
  attest_round-quiet initial checks late =
      Keeps-bind sent_of (sleep chain block_secs) _ (sleep-Keeps block_secs) (λ _.
        Keeps-bind sent_of (on_chain chain.get_block_number) _
          (on_chain-Keeps chain.get_block_number)
          (λ block. Keeps-bind sent_of (epoch_of chain block) _ (epoch_of-Keeps block) (λ epoch.
            Keeps-bind sent_of (remaining_blocks chain block) _ (remaining_blocks-Keeps block)
              (λ remaining. stops epoch remaining))))
    where
      stops :
          (epoch remaining : ℕ)
          → Keeps sent_of (
              if ltb initial epoch || ltb max_attest_checks checks
              then pure finished
              else (do result ← attest chain epoch true; after_attest chain epoch remaining result))
      stops epoch remaining = elim (Bool-cases (ltb initial epoch)) [
        | inl past ↦ rw past (Keeps-pure sent_of finished)
        | inr now ↦ rw (now, late) (Keeps-pure sent_of finished)
      ]

  -- However many rounds there are, the guard leaves at most four attempts in all.
  attest_loop-Adds :
      (rounds initial checks : ℕ) → Adds 0 (4 - checks) (attest_loop chain rounds initial checks)
  unfolding attest_loop
  attest_loop-Adds zero initial checks = Adds-quiet 0 (4 - checks) _ (Keeps-pure sent_of false)
  attest_loop-Adds (suc rounds) initial checks =
      let rest = attest_loop chain rounds initial (checks + 1) in
      let next = attest_loop-Adds rounds initial (checks + 1) in
      elim (Bool-cases (ltb max_attest_checks checks)) [
        | inl late ↦ Adds-weaken 0 (4 - (checks + 1)) 0 (4 - checks) _ (omega arith) (omega arith) (
            Adds-then 0 (4 - (checks + 1)) (attest_round chain initial checks) _
              (attest_round-quiet initial checks late)
              (λ r. go_on-Adds (4 - (checks + 1)) rest r next))
        | inr early ↦
            Adds-weaken 0 (1 + (4 - (checks + 1))) 0 (4 - checks) _ (omega arith) (ground arith) (
              Adds-bind 0 1 0 (4 - (checks + 1)) (attest_round chain initial checks) _
                (attest_round-Adds initial checks) (λ r. go_on-Adds (4 - (checks + 1)) rest r next))
      ]

  after_validate-Keeps :
      (epoch remaining : ℕ) (b : Bool) → Keeps sent_of (after_validate chain epoch remaining b)
  after_validate-Keeps epoch remaining true =
      Keeps-bind sent_of (mark_epoch chain epoch) _
        (update-Keeps (λ n. record n { last_validated_or_attested_epoch = epoch }))
        (λ _. sleep-Keeps (remaining * block_secs))
  after_validate-Keeps epoch remaining false = sleep-Keeps block_secs

  validate_once-Adds :
      (epoch remaining : ℕ) (o : Option Submission)
      → Adds 1 0 (validate_once chain epoch remaining o)
  validate_once-Adds epoch remaining none =
      Adds-bind 1 0 0 0 (validate chain) _ validate-Adds
        (λ b. Adds-quiet 0 0 _ (after_validate-Keeps epoch remaining b))
  validate_once-Adds epoch remaining (some submission) = Adds-quiet 1 0 _ (
      Keeps-bind sent_of (mark_epoch chain epoch) _
        (update-Keeps (λ n. record n { last_validated_or_attested_epoch = epoch }))
        (λ _. sleep-Keeps (remaining * block_secs)))

  pub as_validator-Adds : (epoch remaining : ℕ) → Adds 1 0 (as_validator chain epoch remaining)
  as_validator-Adds epoch remaining =
      Adds-then 1 0 (get_validator_consensus_submission chain (pos epoch)) _
        (get_submission-Keeps epoch) (λ o. validate_once-Adds epoch remaining o)

  pub as_attestor-Adds : (epoch : ℕ) → Adds 0 4 (as_attestor chain epoch)
  as_attestor-Adds epoch =
      Adds-bind 0 4 0 0 (attest_loop chain attest_rounds epoch 0) _
        (attest_loop-Adds attest_rounds epoch 0) (λ _. Adds-quiet 0 0 _ (Keeps-pure sent_of tt))
