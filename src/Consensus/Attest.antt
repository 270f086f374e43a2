-- ===== src/Consensus/Attest.antt =====
-- `validate`, `attest`, `should_attest` and what they call.
pub mod Judgement
pub mod Safety
use subnet_llm_template.Prelude.{
  ℕ, ◌+◌, Bool, true, false, ◌&&◌, ◌||◌, not, Option, none, some, List, [], ◌∷◌, ◌==◌, ltb,
  if◌then◌else◌,
}
use subnet_llm_template.Prelude.Int.{ℤ, pos, ◌-ℤ◌}
use subnet_llm_template.Exec.{
  Result, ok, raised, Exec, pure, raise, gets, ◌>>=◌, ◌>>◌, modify, try_or,
}
use subnet_llm_template.Consensus.Data.{RewardsData, issubset, set_eq, symmetric_difference}
use subnet_llm_template.Consensus.Chain.{
  Chain, Node, State, Submission, RewardEvent, absent, pair, event, Transaction, validation,
  attestation, activation, M, on_chain, node, update, send,
}

pub data AttestReason : Type 0 where
  waiting attested attest_failed should_not_attest : AttestReason

abbrev pub is_empty : List RewardsData → Bool
is_empty [] = true
is_empty (_ ∷ _) = false

-- The loops of `_has_attested`, `is_submittable` and `is_included` over account ids.
unfoldable pub has_account : ℕ → List ℕ → Bool
has_account account [] = false
has_account account (a ∷ as_) = if a == account then true else has_account account as_

-- 0.875 of the 1e9 that stand for one.
abbrev pub super_majority : ℕ
super_majority = 875000000

-- `event['event']['attributes']`, which raises on `None` and on a pair.
abbrev pub attributes : {S : Type 0} → RewardEvent → Exec S (Option (ℕ × ℕ))
attributes absent = raise
attributes (pair _ _) = raise
attributes (event id percentage) = pure (some (id, percentage))

module _ (chain : Chain) where
  unfoldable pub shutdown : M chain.World Unit
  shutdown = update (λ n. record n { stop = true })

  unfoldable pub is_submittable : M chain.World Bool
  unfolding has_account
  is_submittable = do
    self ← node
    nodes ← on_chain (chain.get_submittable_nodes self.subnet_id)
    pure (has_account self.account_id nodes)

  unfoldable pub is_included : M chain.World Bool
  unfolding has_account
  is_included = do
    self ← node
    nodes ← on_chain (chain.get_included_nodes self.subnet_id)
    pure (has_account self.account_id nodes)

  unfoldable pub do_validate : List RewardsData → M chain.World Bool
  do_validate scores =
      try_or
        (do self ← node; send (validation scores); on_chain (chain.validate self.subnet_id scores))
        (pure false)

  unfoldable pub do_attest : M chain.World Bool
  do_attest =
      try_or (do self ← node; send attestation; on_chain (chain.attest self.subnet_id)) (pure false)

  unfoldable pub get_consensus_data : M chain.World (List RewardsData)
  get_consensus_data = do self ← node; on_chain (chain.get_consensus_data self.subnet_id)

  unfoldable pub get_validator_consensus_submission : ℤ → M chain.World (Option Submission)
  get_validator_consensus_submission epoch = do
    self ← node
    on_chain (chain.get_rewards_submission self.subnet_id epoch)

  unfoldable pub get_validator : ℕ → M chain.World (Option ℕ)
  get_validator epoch = do self ← node; on_chain (chain.get_rewards_validator self.subnet_id epoch)

  unfoldable pub get_reward_result : ℕ → M chain.World (Option (ℕ × ℕ))
  get_reward_result epoch =
      try_or
        (do
          self ← node
          found ← on_chain (chain.get_reward_result_event self.subnet_id epoch)
          attributes found)
        (pure none)

  -- A loop over the submission, which raises unless it gives dataclasses.
  abbrev pub compare_entries : Option (List RewardsData) → List RewardsData → M chain.World Bool
  compare_entries none dif = raise
  compare_entries (some entries) dif = pure (issubset dif entries)

  -- `_, attestation_percentage = …`, which raises on `None`.
  abbrev pub compare_onchain : Submission → List RewardsData → Option (ℕ × ℕ) → M chain.World Bool
  compare_onchain submission dif none = raise
  compare_onchain submission dif (some (_, percentage)) =
      if ltb percentage super_majority then pure false else compare_entries submission.entries dif

  abbrev pub compare_previous : Option Submission → List RewardsData → ℕ → M chain.World Bool
  compare_previous none dif epoch = pure false
  compare_previous (some submission) dif epoch = do
    result ← get_reward_result epoch
    compare_onchain submission dif result

  -- `success` of `should_attest`, from whether the sets are equal and the data kept so far.
  abbrev pub judge : Bool → Option (List RewardsData) → List RewardsData → ℕ → M chain.World Bool
  judge true previous dif epoch = pure true
  judge false (some previous) dif epoch = pure (issubset dif previous)
  judge false none dif epoch = do
    submission ← get_validator_consensus_submission (pos epoch -ℤ pos 1)
    compare_previous submission dif epoch

  unfoldable pub should_attest : List RewardsData → List RewardsData → ℕ → M chain.World Bool
  unfolding get_validator_consensus_submission get_reward_result
  should_attest validator_data my_data epoch =
      if is_empty validator_data && is_empty my_data then pure true else do
        self ← node
        success ←
            judge (set_eq validator_data my_data) self.previous_epoch_data
              (symmetric_difference validator_data my_data) epoch
        update (λ n. record n { previous_epoch_data = some my_data })
        pure success

  unfoldable pub validate : M chain.World Bool
  unfolding get_consensus_data do_validate
  validate = do scores ← get_consensus_data; do_validate scores

  -- The end of `attest`: the transaction, where it is to be sent.
  abbrev pub attest_if : Bool → M chain.World (Bool × AttestReason)
  attest_if false = pure (false, should_not_attest)
  attest_if true = do
    success ← do_attest
    pure (if success then (true, attested) else (false, attest_failed))

  -- With `in_validator_data = True` the test whether the node is still submittable is never made.
  abbrev pub check_submittable : Bool → Bool → M chain.World Unit
  check_submittable in_validator_data wanted =
      if not in_validator_data && wanted
      then (do submittable ← is_submittable; if submittable then pure tt else shutdown)
      else pure tt

  abbrev pub attest_submission : ℕ → Bool → Option Submission → M chain.World (Bool × AttestReason)
  attest_submission epoch wanted none = pure (false, waiting)
  attest_submission epoch wanted (some submission) = do
    self ← node
    if has_account self.account_id submission.attests then pure (false, attested) else do
      scores ← get_consensus_data
      check_submittable true wanted
      should ← should_attest submission.scores scores epoch
      attest_if (should && wanted)

  -- `attest(epoch, attest)`
  unfoldable pub attest : ℕ → Bool → M chain.World (Bool × AttestReason)
  unfolding has_account get_validator_consensus_submission get_consensus_data is_submittable
      shutdown should_attest do_attest
  attest epoch wanted = do
    submission ← get_validator_consensus_submission (pos epoch)
    attest_submission epoch wanted submission
