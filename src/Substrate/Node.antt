-- ===== src/Substrate/Node.antt =====
-- The chain that the consensus thread works on, made of the functions of chain_functions.py and of
-- src/subnet/substrate/utils.py.
pub mod Effects
use Prim.Native.String.{String}
use subnet_llm_template.Prelude.{
  ℕ, suc, ◌+◌, ◌≤◌, ◌≡◌, refl, ◌≢◌, Bool, false, Option, none, some, List, ◌∷◌, map, length, arith,
}
use subnet_llm_template.Prelude.Int.{ℤ, pos, negsuc, ◌-ℤ◌}
use subnet_llm_template.Exec.{Result, ok, raised, Exec}
use subnet_llm_template.Consensus.Data.{RewardsData, set_eq}
use subnet_llm_template.Consensus.Chain.{
  Chain, State, Submission, SubnetData, Receipt, RewardEvent, absent, pair, event, attestation,
  validation,
}
use subnet_llm_template.Consensus.Attest.{should_attest, do_attest, do_validate}
use subnet_llm_template.Consensus.Attest.Judgement.{fresh_node_raises}
use subnet_llm_template.Substrate.{Outcome, returned, threw, other, Action, give, throw, ◌>>=◌}
use subnet_llm_template.Substrate.Interface.{
  Interface, Value, null, num, negative, scores, Session, Tenacity, IsRetrying, on_world,
}
use subnet_llm_template.Substrate.Extrinsics as Extrinsics
use subnet_llm_template.Substrate.Queries as Queries
use subnet_llm_template.Substrate.Queries.{or_throw}
use subnet_llm_template.Substrate.Events.{get_reward_result_event}
use subnet_llm_template.Substrate.Nodes.{Codec, get_submittable_nodes, get_included_nodes}
use subnet_llm_template.Substrate.Scores.{HealthEntry}
use subnet_llm_template.Substrate.Scores.Shares.{Floats}
use subnet_llm_template.Substrate.Scores.Retrieval.{get_consensus_data}

-- What the thread reads from the replies. `none` is a query that has found nothing.
pub record Reading (I : Interface) : Type 0 where
  pub subnet_id : I.Reply → Option ℕ
  pub subnet_data : I.Reply → Option SubnetData
  pub validator : I.Reply → Option ℕ
  pub submission : I.Reply → Option Submission
  pub receipt : I.Receipt → Action I.World Receipt

-- The thread does not tell exceptions apart.
module _ {A : Type 0} where
  abbrev pub result_of : Outcome A → Result A
  result_of (returned a) = ok a
  result_of (threw _) = raised

module _ {S A : Type 0} where
  abbrev pub exec : Action S A → Exec S A
  exec m s = let (r, t) = m s in (result_of r, t)

abbrev pub id_value : Option ℕ → Value
id_value none = null
id_value (some n) = num n

abbrev pub int_value : ℤ → Value
int_value (pos n) = num n
int_value (negsuc n) = negative n

-- The thread never reads the numbers of a pair.
abbrev pub number : Value → ℕ
number (num n) = n
number _ = 0

abbrev pub reward_event : Option (Value × Value) → RewardEvent
reward_event none = absent
reward_event (some (id, percentage)) = pair (number id) (number percentage)

module _ {A B : Type 0} where
  -- what is read from a reply, where there is one
  abbrev pub bind_option : Option A → (A → Option B) → Option B
  bind_option none f = none
  bind_option (some a) f = f a

module _ {I : Interface} (T : Tenacity I) (keypair : I.Keypair) (C : Codec I) (F : Floats)
    (run : Action I.World (Option (List HealthEntry))) (reading : Reading I) (path : String) where
  abbrev pub is_success : Option I.Receipt → Action (Session I) Bool
  is_success none = throw other
  is_success (some receipt) = on_world (I.is_success receipt)

  abbrev pub read_receipt : Option I.Receipt → Action (Session I) (Option Receipt)
  read_receipt none = give none
  read_receipt (some receipt) = on_world (reading.receipt receipt) >>= λ r. give (some r)

  -- An attribute of the `None` that a failed query gives raises.
  abbrev pub chain : Chain
  chain = record {
    World = Session I;
    get_block_number = exec (Queries.get_block_number T >>= or_throw);
    get_subnet_id_by_path = exec (
        Queries.get_subnet_id_by_path T path >>= λ reply.
        or_throw reply >>= λ r. give (reading.subnet_id r));
    get_subnet_data = λ id. exec (
        Queries.get_subnet_data T id >>= λ reply.
        or_throw reply >>= λ r. give (reading.subnet_data r));
    get_submittable_nodes = λ id.
        exec (
          get_submittable_nodes C T (id_value id) >>= λ nodes.
          give (map (λ n. n.account_id) nodes));
    get_included_nodes = λ id.
        exec
          (get_included_nodes C T (id_value id) >>= λ nodes. give (map (λ n. n.account_id) nodes));
    get_rewards_validator = λ id epoch. exec (
        Queries.get_rewards_validator T (id_value id) (num epoch) >>= λ reply.
        give (bind_option reply reading.validator));
    get_rewards_submission = λ id epoch. exec (
        Queries.get_rewards_submission T (id_value id) (int_value epoch) >>= λ reply.
        give (bind_option reply reading.submission));
    get_reward_result_event = λ id epoch.
        exec (get_reward_result_event T id epoch >>= λ found. give (reward_event found));
    get_consensus_data =
        λ id. exec (get_consensus_data F C T run (id_value id) >>= λ c. give c.peers);
    validate = λ id data_.
        exec (Extrinsics.validate T keypair (id_value id) (scores data_) null >>= is_success);
    attest = λ id. exec (Extrinsics.attest T keypair (id_value id) >>= is_success);
    activate_subnet = λ id. exec (Extrinsics.activate_subnet T keypair id >>= read_receipt);
    sleep = λ seconds s. (ok tt, s);
  }
