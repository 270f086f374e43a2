-- ===== src/Epochs/Tests.antt =====
-- The theorems on blocks at concrete inputs.
use subnet_llm_template.Prelude.{◌+◌, ◌%◌, ◌<◌, ◌≤◌, ◌≡◌, refl, false, arith}
use subnet_llm_template.Consensus.Run.{get_next_epoch_start_block}
use subnet_llm_template.Epochs.{
  can_submit_consensus, get_next_eligible_submit_consensus_block, next_epoch_start,
}

-- Neither a block of an epoch in which consensus is due nor another one passes the test for submitting.
submit_due : can_submit_consensus 60 20 ≡ false
unfolding can_submit_consensus
submit_due = refl

submit_later : can_submit_consensus 57 20 ≡ false
unfolding can_submit_consensus
submit_later = refl

next_epoch_start_example :
    let next = get_next_epoch_start_block 20 57 in
    (57 < next)
    × (next ≤ 57 + 20)
    × (next % 20 ≡ 0)
    × (get_next_eligible_submit_consensus_block 20 57 ≡ next)
next_epoch_start_example = next_epoch_start 20 57 (omega arith)
