-- ===== src/Substrate/Tests.antt =====
-- Runs of the functions of chain_functions.py on a small chain, and the theorems at concrete inputs.
mod Fixed
use Prim.Native.String.{String}
use subnet_llm_template.Prelude.{
  ℕ, zero, suc, ◌+◌, ◌*◌, ◌/◌, ◌-◌, ◌≤◌, ◌<◌, ◌≡◌, refl, ◌≢◌, ◌⊎◌, Bool, true, false, Option, none,
  some, List, [], ◌∷◌, arith, All,
}
use subnet_llm_template.Prelude.Int.{pos, negsuc, ◌+ℤ◌, ◌-ℤ◌, ◌≤ℤ◌}
use subnet_llm_template.Exec.{Result, ok, raised}
use subnet_llm_template.Consensus.Data.{RewardsData, set_eq, issubset, member}
use subnet_llm_template.Consensus.Chain.{State, Submission, init, attestation}
use subnet_llm_template.Consensus.Attest.{should_attest, do_attest}
use subnet_llm_template.Substrate.{
  Failure, request, exhausted, other, Outcome, returned, threw, Action, give,
}
use subnet_llm_template.Substrate.Interface.{
  Interface, Value, null, num, str, dict, Fields, end, field, Event, Session, Tenacity, IsRetrying,
  on_world, sleep,
}
use subnet_llm_template.Substrate.Requests.{with_substrate}
use subnet_llm_template.Substrate.Operations as Operations
use subnet_llm_template.Substrate.Operations.{run, ask}
use subnet_llm_template.Substrate.Replies.{request_of}
use subnet_llm_template.Substrate.Limits.{submissions, seconds}
use subnet_llm_template.Substrate.Bounds.{run_within, reads_within}
use subnet_llm_template.Substrate.Attempts.{Attempts, ask-Attempts}
use subnet_llm_template.Substrate.Signing.{Extends, IsSigned, run_signs}
use subnet_llm_template.Substrate.Events.{find_event, get_reward_result_event}
use subnet_llm_template.Substrate.Events.First.{IsOther, EndsAt, find_event_lem}
use subnet_llm_template.Substrate.Nodes.{SubnetNode, Codec}
use subnet_llm_template.Substrate.Queries as Queries
use subnet_llm_template.Substrate.Node as Node
use subnet_llm_template.Substrate.Node.{Reading}
use subnet_llm_template.Substrate.Node.Effects.{do_attest_within, should_attest_raises}
use subnet_llm_template.Substrate.Scores.{
  HealthEntry, model_reports, state, model_num_blocks, server_rows, match_peers, start,
}
use subnet_llm_template.Substrate.Scores.Shares.{
  Consensus, score_all, get_blockchain_peers_consensus_data,
}
use subnet_llm_template.Substrate.Scores.Matched.{IsTally, contains, match_peers_sums}
use subnet_llm_template.Substrate.Scores.Limits.{IsWithin, HasLength, scores-IsWithin}
use subnet_llm_template.Substrate.Tests.Fixed.{fixed, fixed-IsRounding}

-- The world is what happens next: an exception, or nothing of note.
abbrev World : Type 0
World = List (Option Failure)

module _ {A : Type 0} where
  abbrev tick : A → Action World A
  tick a [] = (returned a, [])
  tick a (none ∷ w) = (returned a, w)
  tick a (some f ∷ w) = (threw f, w)

abbrev reward_events : List Event
reward_events =
    record { module_id = "System"; event_id = "RewardResult"; attributes = [] }
    ∷ record { module_id = "Network"; event_id = "RewardResult"; attributes = num 3 ∷ num 5 ∷ [] }
    ∷ record { module_id = "Network"; event_id = "RewardResult"; attributes = num 4 ∷ num 6 ∷ [] }
    ∷ []

abbrev chain : Interface
chain = record {
  World = World;
  Keypair = ℕ;
  Call = String × Fields;
  Extrinsic = (String × Fields) × (ℕ × Option ℕ);
  Receipt = Bool;
  Reply = ℕ;
  Hash = ℕ;
  enter = give tt;
  leave = give tt;
  ss58_address = λ keypair. "5F";
  compose_call = λ pallet function params. give (function, params);
  get_account_nonce = λ address. give 9;
  create_signed_extrinsic = λ call keypair nonce. give (call, (keypair, nonce));
  submit_extrinsic = λ e. tick true;
  is_success = λ receipt. tick receipt;
  triggered_events = λ receipt. give tt;
  error_message = λ receipt. give tt;
  rpc_request = λ method params. tick 70;
  query = λ pallet item params. tick 71;
  get_constant = λ pallet item. tick 100;
  get_block_hash = λ number. give 5;
  get_block_number = λ hash. give 250;
  get_events = λ hash. tick reward_events;
  value = λ reply. dict (field "data" (dict (field "free" (num reply) end)) end);
  digits = λ reply. some reply;
}

module _ {A : Type 0} where
  abbrev settled :
      ℕ
      → ℕ
      → (Session chain → Session chain)
      → Action (Session chain) A
      → Outcome A
      → Action (Session chain) A
  settled wait n after next (returned a) t = (returned a, t)
  settled wait zero after next (threw x) t = (threw exhausted, after t)
  settled wait (suc n) after next (threw x) t = next (sleep wait (after t))

  abbrev retry_loop :
      ℕ → ℕ → (Session chain → Session chain) → Action (Session chain) A → Action (Session chain) A
  retry_loop wait zero after m s = (threw exhausted, s)
  retry_loop wait (suc n) after m s =
      let (r, t) = m s in settled wait n after (retry_loop wait n after m) r t

abbrev tenacity : Tenacity chain
tenacity = record { retry = λ wait n after m. retry_loop wait n after m }

tenacity-IsRetrying : IsRetrying tenacity
tenacity-IsRetrying = record {
  first = λ w n f m s e. rw e refl;
  again = λ w n f m s e. rw e refl;
  last = λ w f m s e. rw e refl;
}

abbrev session : World → Session chain
session w = record { world = w; retry_counter = 0; submitted = []; slept = 0 }

-- Reading the receipt fails twice after the extrinsic was submitted: it is submitted three times.
abbrev unlucky : World
unlucky = none ∷ some other ∷ none ∷ some other ∷ none ∷ none ∷ []

run-unlucky :
    let t = (run tenacity (Operations.attest (num 3)) 1 (session unlucky)).1 in
    (submissions t ≡ 3) × (seconds t ≡ 14)
unfolding run
run-unlucky = (refl, refl)

-- A request that fails ends the call, with nothing submitted again.
run-request :
    let (r, t) = run tenacity (Operations.add_to_stake 3 10) 1 (session (some request ∷ [])) in
    (r ≡ returned none) × (submissions t ≡ 1)
unfolding run
run-request = (refl, refl)

event-found :
    (get_reward_result_event tenacity (some 4) 2 (session (some other ∷ []))).0
    ≡ returned (some (num 4, num 6))
unfolding get_reward_result_event
event-found = refl

run_within_example :
    let t = (run tenacity (Operations.attest (num 3)) 1 (session unlucky)).1 in
    (submissions t ≤ 4 + 0) × (seconds t ≤ 21 + 0)
run_within_example =
    run_within tenacity tenacity-IsRetrying (Operations.attest (num 3)) 1 (session unlucky)

run_signs_example :
    Extends
      (IsSigned chain (Operations.attest (num 3)) 1)
      []
      (run tenacity (Operations.attest (num 3)) 1 (session unlucky)).1.submitted
run_signs_example =
    run_signs tenacity tenacity-IsRetrying (Operations.attest (num 3)) 1 (session unlucky)

reads_within_example :
    let t = (ask tenacity (Operations.get_subnet_nodes 3) (session unlucky)).1 in
    let u = (get_reward_result_event tenacity (some 4) 2 (session unlucky)).1 in
    (submissions t ≤ 0) × (seconds t ≤ 21 + 0) × (submissions u ≤ 0) × (seconds u ≤ 105 + 0)
reads_within_example =
    reads_within tenacity tenacity-IsRetrying (Operations.get_subnet_nodes 3) (some 4) 2
      (session unlucky)

ask-Attempts_example :
    Attempts
      (with_substrate (on_world (request_of chain (Operations.get_subnet_nodes 3))))
      4
      (session (some other ∷ some request ∷ []))
      (returned none)
      (record (session []) { slept = 7 })
unfolding ask
ask-Attempts_example =
    ask-Attempts tenacity tenacity-IsRetrying (Operations.get_subnet_nodes 3)
      (session (some other ∷ some request ∷ []))

find_event_lem_example :
    (All (IsOther (some 4)) reward_events × (find_event (some 4) reward_events ≡ returned none))
    ⊎ EndsAt (some 4) reward_events (find_event (some 4) reward_events)
find_event_lem_example = find_event_lem (some 4) reward_events

abbrev codec : Codec chain
codec = record {
  result = λ reply. some (reply ∷ []);
  decode = λ type_string data_. give none;
  ss58_encode = λ id. id;
}

abbrev submission : Submission
submission = record { attests = []; scores = []; entries = none }

abbrev reading : Reading chain
reading = record {
  subnet_id = λ reply. some 3;
  subnet_data = λ reply. none;
  validator = λ reply. some 7;
  submission = λ reply. some submission;
  receipt = λ receipt. give (record { is_success = receipt; triggered_events = [] });
}

abbrev node : World → State (Session chain)
node w = record { node = record (init 8 100) { subnet_id = some 4 }; world = session w; sent = [] }

do_attest_within_example :
    let thread_chain = Node.chain tenacity 1 codec fixed (give none) reading "llm" in
    let (r, t) = do_attest thread_chain (node unlucky) in
    (t.sent ≡ attestation ∷ [])
    × (submissions t.world ≤ 4 + 0)
    × ((success : Bool) × (r ≡ ok success))
do_attest_within_example =
    do_attest_within tenacity 1 codec fixed (give none) reading "llm" tenacity-IsRetrying
      (node unlucky)

should_attest_raises_example :
    let thread_chain = Node.chain tenacity 1 codec fixed (give none) reading "llm" in
    should_attest thread_chain (record { peer_id = 1; score = pos 5000 } ∷ []) [] 2 (node [])
    ≡ (raised, node [])
unfolding Queries.get_rewards_submission get_reward_result_event set_eq issubset member ◌-ℤ◌
should_attest_raises_example =
    should_attest_raises tenacity 1 codec fixed (give none) reading "llm"
      (record { peer_id = 1; score = pos 5000 } ∷ []) [] 2 (node []) refl refl refl refl

abbrev health : List HealthEntry
health =
    model_reports (
      (state "healthy"
        ∷ model_num_blocks 32
        ∷ server_rows (
            record { peer_id = 1; span_length = pos 20; using_relay = false }
            ∷ record { peer_id = 2; span_length = pos 12; using_relay = true }
            ∷ record { peer_id = 3; span_length = pos 32; using_relay = false }
            ∷ [])
        ∷ [])
      ∷ [])
    ∷ []

-- The third server is no validator. The relayed one loses a third of its share.
scores-health :
    get_blockchain_peers_consensus_data fixed (1 ∷ 2 ∷ []) (some health)
    ≡ some (record {
      model_state = "healthy";
      peers =
          record { peer_id = 1; score = pos 7332 } ∷ record { peer_id = 2; score = pos 1787 } ∷ [];
    })
unfolding get_blockchain_peers_consensus_data ◌+ℤ◌ ◌-ℤ◌
scores-health = refl

-- A peer that announces a first block of 10032 and a last one of 0: its share is below 0, and the share of
-- the other one is above ten thousand.
abbrev reversed : List HealthEntry
reversed =
    model_reports (
      (state "healthy"
        ∷ model_num_blocks 32
        ∷ server_rows (
            record { peer_id = 1; span_length = pos 32; using_relay = false }
            ∷ record { peer_id = 2; span_length = negsuc 10031; using_relay = false }
            ∷ [])
        ∷ [])
      ∷ [])
    ∷ []

scores-reversed :
    get_blockchain_peers_consensus_data fixed (1 ∷ 2 ∷ []) (some reversed)
    ≡ some (record {
      model_state = "healthy";
      peers =
          record { peer_id = 1; score = negsuc 46 }
          ∷ record { peer_id = 2; score = pos 10047 }
          ∷ [];
    })
unfolding get_blockchain_peers_consensus_data ◌+ℤ◌ ◌-ℤ◌
scores-reversed = refl

scores-IsWithin_example :
    ((c : Consensus) × (get_blockchain_peers_consensus_data fixed (1 ∷ 2 ∷ []) (some health)
        ≡ some c)
      × All (IsWithin 10000) c.peers)
    ⊎ ((scored : List RewardsData) × (score_all fixed (match_peers (1 ∷ 2 ∷ []) health start)
          ≡ some (pos 0, scored)))
unfolding match_peers
scores-IsWithin_example =
    scores-IsWithin fixed-IsRounding (1 ∷ 2 ∷ []) health (omega arith, (omega arith, tt))

match_peers_sums_example :
    IsTally (λ id. contains id (1 ∷ 2 ∷ []) ≡ true) (match_peers (1 ∷ 2 ∷ []) health start)
match_peers_sums_example = match_peers_sums (1 ∷ 2 ∷ []) health
