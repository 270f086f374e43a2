-- ===== src/Consensus/Chain.antt =====
-- What `Consensus` uses of the chain and of the scoring protocol: src/subnet/substrate/
-- chain_functions.py and get_consensus_data of src/subnet/substrate/utils.py, each as an action on
-- a world that nothing is known of. An action may raise.
use subnet_llm_template.Prelude.Int.{ℤ}
use subnet_llm_template.Prelude.{ℕ, Bool, false, Option, none, List, ◌∷◌}
use subnet_llm_template.Exec.{ok, Exec}
use subnet_llm_template.Consensus.Data.{RewardsData}

-- A submission of the epoch's validator: who has attested, its scores, and what a loop over the
-- submission itself gives, if that is a list of `RewardsData` (`asdict` raises on anything else).
pub record Submission : Type 0 where
  pub attests : List ℕ
  pub scores : List RewardsData
  pub entries : Option (List RewardsData)

pub record SubnetData : Type 0 where
  pub initialized : ℕ
  pub registration_blocks : ℕ
  pub activated : ℕ

-- `triggered_events` by whether each is `SubnetActivated`.
pub record Receipt : Type 0 where
  pub is_success : Bool
  pub triggered_events : List Bool

-- What `get_reward_result_event` returns: `None`, a pair, or something with the attributes of an
-- event, as its caller expects. The function of chain_functions.py returns one of the first two.
pub data RewardEvent : Type 0 where
  absent : RewardEvent
  pair : ℕ → ℕ → RewardEvent
  event : ℕ → ℕ → RewardEvent

-- `none` is a query with no result, or a call that returned `None`.
pub record Chain : Type 1 where
  pub World : Type 0
  pub get_block_number : Exec World ℕ
  pub get_subnet_id_by_path : Exec World (Option ℕ)
  pub get_subnet_data : ℕ → Exec World (Option SubnetData)
  pub get_submittable_nodes : Option ℕ → Exec World (List ℕ)
  pub get_included_nodes : Option ℕ → Exec World (List ℕ)
  pub get_rewards_validator : Option ℕ → ℕ → Exec World (Option ℕ)
  pub get_rewards_submission : Option ℕ → ℤ → Exec World (Option Submission)
  pub get_reward_result_event : Option ℕ → ℕ → Exec World RewardEvent
  pub get_consensus_data : Option ℕ → Exec World (List RewardsData)
  pub validate : Option ℕ → List RewardsData → Exec World Bool
  pub attest : Option ℕ → Exec World Bool
  pub activate_subnet : ℕ → Exec World (Option Receipt)
  pub sleep : ℕ → Exec World (Unit {0})

-- The fields of the thread that change, and `epoch_length` and `account_id`, which do not.
pub record Node : Type 0 where
  pub account_id : ℕ
  pub epoch_length : ℕ
  pub subnet_id : Option ℕ
  pub subnet_accepting_consensus : Bool
  pub subnet_node_eligible : Bool
  pub subnet_activated : ℕ
  pub last_validated_or_attested_epoch : ℕ
  pub previous_epoch_data : Option (List RewardsData)
  pub stop : Bool

-- `__init__`, with what the chain says of the epoch's length.
abbrev pub init : ℕ → ℕ → Node
init account_id epoch_length = record {
  account_id = account_id;
  epoch_length = epoch_length;
  subnet_id = none;
  subnet_accepting_consensus = false;
  subnet_node_eligible = false;
  subnet_activated = 9223372036854775807;
  last_validated_or_attested_epoch = 0;
  previous_epoch_data = none;
  stop = false;
}

-- A transaction that was sent, whether it succeeded or not.
pub data Transaction : Type 0 where
  validation : List RewardsData → Transaction
  attestation : Transaction
  activation : ℕ → Transaction

-- The thread, the world, and the transactions sent so far, the last one first. The code keeps no
-- such list: it is there for the statements.
pub record State (World : Type 0) : Type 0 where
  pub node : Node
  pub world : World
  pub sent : List Transaction

module _ (World : Type 0) where
  abbrev pub M : Type 0 → Type 0
  M A = Exec (State World) A

module _ {World A : Type 0} where
  -- An action on the world alone.
  abbrev pub on_chain : Exec World A → Exec (State World) A
  on_chain m s = let (r, w) = m s.world in (r, record s { world = w })

module _ {World : Type 0} where
  abbrev pub node : Exec (State World) Node
  node s = (ok s.node, s)

  abbrev pub update : (Node → Node) → Exec (State World) (Unit {0})
  update f s = (ok tt, record s { node = f s.node })

  abbrev pub send : Transaction → Exec (State World) (Unit {0})
  send t s = (ok tt, record s { sent = t ∷ s.sent })
