-- ===== src/Substrate/Operations.antt =====
-- The functions of chain_functions.py by name and arguments, for statements about all of them.
use Prim.Native.String.{String}
use subnet_llm_template.Prelude.{ℕ, Option}
use subnet_llm_template.Substrate.{Action}
use subnet_llm_template.Substrate.Interface.{Interface, Value, Session, Tenacity}
use subnet_llm_template.Substrate.Extrinsics as Extrinsics
use subnet_llm_template.Substrate.Queries as Queries

-- What can be submitted.
pub data Operation : Type 0 where
  validate : Value → Value → Value → Operation
  attest : Value → Operation
  register_subnet : String → ℕ → ℕ → Operation
  activate_subnet : ℕ → Operation
  remove_subnet : ℕ → Operation
  add_subnet_node : ℕ → String → ℕ → Value → Value → Value → Operation
  register_subnet_node : ℕ → String → ℕ → Value → Value → Value → Operation
  activate_subnet_node : ℕ → Operation
  deactivate_subnet_node : ℕ → Operation
  remove_subnet_node : ℕ → Operation
  add_to_stake : ℕ → ℕ → Operation
  remove_stake : ℕ → ℕ → Operation
  add_to_delegate_stake : ℕ → ℕ → Operation

-- What can be asked for with a reply that is passed on.
pub data Question : Type 0 where
  get_subnet_nodes : ℕ → Question
  get_subnet_nodes_included : Value → Question
  get_subnet_nodes_submittable : Value → Question
  get_consensus_data : ℕ → ℕ → Question
  get_accountant_data : ℕ → ℕ → Question
  is_subnet_node_by_peer_id : ℕ → String → Question
  get_minimum_subnet_nodes : ℕ → Question
  get_minimum_delegate_stake : ℕ → Question
  get_subnet_node_info : ℕ → Question
  get_subnet_stake_balance : ℕ → String → Question
  get_subnet_node_account : ℕ → String → Question
  get_subnet_accounts : ℕ → Question
  get_subnet_id_by_path : String → Question
  get_subnet_data : ℕ → Question
  get_max_subnets : Question
  get_min_subnet_nodes : Question
  get_min_stake_balance : Question
  get_max_subnet_nodes : Question
  get_tx_rate_limit : Question
  get_rewards_validator : Value → Value → Question
  get_rewards_submission : Value → Value → Question
  get_min_subnet_registration_blocks : Question
  get_max_subnet_registration_blocks : Question
  get_epoch_length : Question

module _ {I : Interface} (T : Tenacity I) where
  unfoldable pub run : Operation → I.Keypair → Action (Session I) (Option I.Receipt)
  unfolding Extrinsics.validate Extrinsics.attest Extrinsics.register_subnet
      Extrinsics.activate_subnet Extrinsics.remove_subnet Extrinsics.add_subnet_node
      Extrinsics.register_subnet_node Extrinsics.activate_subnet_node
      Extrinsics.deactivate_subnet_node Extrinsics.remove_subnet_node Extrinsics.add_to_stake
      Extrinsics.remove_stake Extrinsics.add_to_delegate_stake
  run (validate subnet_id consensus_data args) keypair =
      Extrinsics.validate T keypair subnet_id consensus_data args
  run (attest subnet_id) keypair = Extrinsics.attest T keypair subnet_id
  run (register_subnet path memory_mb registration_blocks) keypair =
      Extrinsics.register_subnet T keypair path memory_mb registration_blocks
  run (activate_subnet subnet_id) keypair = Extrinsics.activate_subnet T keypair subnet_id
  run (remove_subnet subnet_id) keypair = Extrinsics.remove_subnet T keypair subnet_id
  run (add_subnet_node subnet_id peer_id stake_to_be_added a b c) keypair =
      Extrinsics.add_subnet_node T keypair subnet_id peer_id stake_to_be_added a b c
  run (register_subnet_node subnet_id peer_id stake_to_be_added a b c) keypair =
      Extrinsics.register_subnet_node T keypair subnet_id peer_id stake_to_be_added a b c
  run (activate_subnet_node subnet_id) keypair = Extrinsics.activate_subnet_node T keypair subnet_id
  run (deactivate_subnet_node subnet_id) keypair =
      Extrinsics.deactivate_subnet_node T keypair subnet_id
  run (remove_subnet_node subnet_id) keypair = Extrinsics.remove_subnet_node T keypair subnet_id
  run (add_to_stake subnet_id stake_to_be_added) keypair =
      Extrinsics.add_to_stake T keypair subnet_id stake_to_be_added
  run (remove_stake subnet_id stake_to_be_removed) keypair =
      Extrinsics.remove_stake T keypair subnet_id stake_to_be_removed
  run (add_to_delegate_stake subnet_id stake_to_be_added) keypair =
      Extrinsics.add_to_delegate_stake T keypair subnet_id stake_to_be_added

  unfoldable pub ask : Question → Action (Session I) (Option I.Reply)
  unfolding Queries.get_subnet_nodes Queries.get_subnet_nodes_included
      Queries.get_subnet_nodes_submittable Queries.get_consensus_data Queries.get_accountant_data
      Queries.is_subnet_node_by_peer_id Queries.get_minimum_subnet_nodes
      Queries.get_minimum_delegate_stake Queries.get_subnet_node_info
      Queries.get_subnet_stake_balance Queries.get_subnet_node_account Queries.get_subnet_accounts
      Queries.get_subnet_id_by_path Queries.get_subnet_data Queries.get_max_subnets
      Queries.get_min_subnet_nodes Queries.get_min_stake_balance Queries.get_max_subnet_nodes
      Queries.get_tx_rate_limit Queries.get_rewards_validator Queries.get_rewards_submission
      Queries.get_min_subnet_registration_blocks Queries.get_max_subnet_registration_blocks
      Queries.get_epoch_length
  ask (get_subnet_nodes subnet_id) = Queries.get_subnet_nodes T subnet_id
  ask (get_subnet_nodes_included subnet_id) = Queries.get_subnet_nodes_included T subnet_id
  ask (get_subnet_nodes_submittable subnet_id) = Queries.get_subnet_nodes_submittable T subnet_id
  ask (get_consensus_data subnet_id epoch) = Queries.get_consensus_data T subnet_id epoch
  ask (get_accountant_data subnet_id id) = Queries.get_accountant_data T subnet_id id
  ask (is_subnet_node_by_peer_id subnet_id peer_id) =
      Queries.is_subnet_node_by_peer_id T subnet_id peer_id
  ask (get_minimum_subnet_nodes memory_mb) = Queries.get_minimum_subnet_nodes T memory_mb
  ask (get_minimum_delegate_stake memory_mb) = Queries.get_minimum_delegate_stake T memory_mb
  ask (get_subnet_node_info subnet_id) = Queries.get_subnet_node_info T subnet_id
  ask (get_subnet_stake_balance subnet_id address) =
      Queries.get_subnet_stake_balance T subnet_id address
  ask (get_subnet_node_account subnet_id peer_id) =
      Queries.get_subnet_node_account T subnet_id peer_id
  ask (get_subnet_accounts subnet_id) = Queries.get_subnet_accounts T subnet_id
  ask (get_subnet_id_by_path path) = Queries.get_subnet_id_by_path T path
  ask (get_subnet_data id) = Queries.get_subnet_data T id
  ask get_max_subnets = Queries.get_max_subnets T
  ask get_min_subnet_nodes = Queries.get_min_subnet_nodes T
  ask get_min_stake_balance = Queries.get_min_stake_balance T
  ask get_max_subnet_nodes = Queries.get_max_subnet_nodes T
  ask get_tx_rate_limit = Queries.get_tx_rate_limit T
  ask (get_rewards_validator subnet_id epoch) = Queries.get_rewards_validator T subnet_id epoch
  ask (get_rewards_submission subnet_id epoch) = Queries.get_rewards_submission T subnet_id epoch
  ask get_min_subnet_registration_blocks = Queries.get_min_subnet_registration_blocks T
  ask get_max_subnet_registration_blocks = Queries.get_max_subnet_registration_blocks T
  ask get_epoch_length = Queries.get_epoch_length T
