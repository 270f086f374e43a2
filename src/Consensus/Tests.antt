-- ===== src/Consensus/Tests.antt =====
-- Runs of the consensus thread on a small chain, and the theorems at concrete inputs.
use subnet_llm_template.Prelude.{
  ℕ, ◌+◌, ◌/◌, ◌≡◌, ◌≢◌, ◌↔◌, refl, true, false, none, some, List, [], ◌∷◌, arith,
}
use subnet_llm_template.Prelude.Int.{pos, ◌-ℤ◌}
use subnet_llm_template.Exec.{ok}
use subnet_llm_template.Consensus.Data.{RewardsData, member, issubset, set_eq, symmetric_difference}
use subnet_llm_template.Consensus.Chain.{Chain, State, Submission, pair, init, attestation}
use subnet_llm_template.Consensus.Attest.{attest, should_attest}
use subnet_llm_template.Consensus.Attest.Judgement.{Explained, should_attest_iff}
use subnet_llm_template.Consensus.Attest.Safety.{Justified, Sends, attest-Justified}
use subnet_llm_template.Consensus.Activate.{activate}
use subnet_llm_template.Consensus.Activate.Outcome.{Activated, activate-Activated}
use subnet_llm_template.Consensus.Run.{attest_loop, iterate, run}
use subnet_llm_template.Consensus.Run.Waiting.{attest_loop_ends}
use subnet_llm_template.Consensus.Run.Exclusive.{Exclusive, iterate-Exclusive}

abbrev entry : ℕ → ℕ → RewardsData
entry peer_id score = record { peer_id = peer_id; score = pos score }

abbrev scores : List RewardsData
scores = entry 1 5000 ∷ entry 2 5000 ∷ []

abbrev submission : Submission
submission = record { attests = 4 ∷ []; scores = entry 2 5000 ∷ entry 1 5000 ∷ []; entries = none }

-- The world is the block number. Account 7 is the validator, and has submitted; account 8 and
-- account 7 are submittable.
abbrev chain : Chain
chain = record {
  World = ℕ;
  get_block_number = λ w. (ok w, w);
  get_subnet_id_by_path = λ w. (ok (some 3), w);
  get_subnet_data =
      λ id w. (ok (some (record { initialized = 1; registration_blocks = 9; activated = 20 })), w);
  get_submittable_nodes = λ id w. (ok (7 ∷ 8 ∷ []), w);
  get_included_nodes = λ id w. (ok (7 ∷ 8 ∷ []), w);
  get_rewards_validator = λ id epoch w. (ok (some 7), w);
  get_rewards_submission = λ id epoch w. (ok (some submission), w);
  get_reward_result_event = λ id epoch w. (ok (pair 3 900000000), w);
  get_consensus_data = λ id w. (ok scores, w);
  validate = λ id data_ w. (ok true, w);
  attest = λ id w. (ok true, w);
  activate_subnet = λ id w. (ok none, w);
  sleep = λ seconds w. (ok tt, w + seconds / 6);
}

abbrev at_start : State ℕ
at_start = record { node = init 8 100; world = 250; sent = [] }

abbrev with_kept : State ℕ
with_kept = record at_start { node = record (init 8 100) { previous_epoch_data = some [] } }

-- The node activates its view of the subnet, becomes eligible, finds the validator's scores to be
-- its own, attests once, and rests.
run-at_start : (run chain 3 10 at_start).1.sent ≡ attestation ∷ []
unfolding run set_eq symmetric_difference issubset member ◌-ℤ◌
run-at_start = refl

attest-Justified_example :
    Sends chain [] (Justified chain 2 true [] with_kept) (attest chain 2 true with_kept)
attest-Justified_example = attest-Justified chain 2 true [] with_kept refl

should_attest_iff_example :
    ((should_attest chain scores (entry 1 5000 ∷ []) 2 with_kept).0 ≡ ok true)
    ↔ Explained scores (entry 1 5000 ∷ []) []
should_attest_iff_example = should_attest_iff chain scores (entry 1 5000 ∷ []) [] 2 with_kept refl

activate-Activated_example : Activated chain at_start.world (activate chain 5 at_start)
activate-Activated_example = activate-Activated chain 5 at_start

attest_loop_ends_example : (attest_loop chain 5 2 0 at_start).0 ≢ ok false
attest_loop_ends_example = attest_loop_ends chain 5 2 at_start (omega arith)

iterate-Exclusive_example : Exclusive (iterate chain 5)
iterate-Exclusive_example = iterate-Exclusive chain 5
